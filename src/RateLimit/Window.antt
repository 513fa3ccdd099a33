-- ===== src/RateLimit/Window.antt =====
-- How many requests of one identity the script of internal/ratelimit/ratelimit.go admits.
use quorum_market.Common.{
  ℕ, ◌+◌, ◌≤◌, ◌<◌, ◌≡◌, refl, Bool, true, false, none, List, [], ◌∷◌, ltb, leb, if◌then◌else◌,
  length, count, Str, Assoc, lookup, insert, keep, arith, ◌&&◌, Bool-cases, inl, inr, All, AllPairs,
  insert-AllPairs, keep-AllPairs, length-insert_new, count-le-length, sym, ◌∙◌, count_mono,
}
use quorum_market.RateLimit.{Bucket, in_window, stored, script}

-- How many values pass a test.
abbrev pub count_values : (ℕ → Bool) → Assoc ℕ → ℕ
count_values p m = count (λ e. p e.1) m

pub length-keep : (p : ℕ → Bool) (m : Assoc ℕ) → length (keep p m) ≡ count_values p m
unfolding keep
length-keep p [] = refl
length-keep p ((k, v) ∷ m) = ground (arith, length-keep p m)

count_values-keep :
    (p q : ℕ → Bool) (m : Assoc ℕ)
    → ((v : ℕ) → p v ≡ true → q v ≡ true)
    → count_values p (keep q m) ≡ count_values p m
unfolding keep
count_values-keep p q [] h = refl
count_values-keep p q ((k, v) ∷ m) h = ground (arith, h v, count_values-keep p q m h)

count_values-insert :
    (p : ℕ → Bool) (k : Str) (v : ℕ) (m : Assoc ℕ)
    → lookup k m ≡ none
    → count_values p (insert k v m) ≡ (if p v then 1 else 0) + count_values p m
unfolding insert lookup
count_values-insert p k v [] h = ground arith
count_values-insert p k v ((j, w) ∷ m) h = ground (arith, h, count_values-insert p k v m)

-- A request at `x` still counts at `t`.
abbrev pub counts_at : ℕ → ℕ → ℕ → Bool
counts_at window t x = ltb t (x + window)

-- The window of the length that begins after `t`.
abbrev pub within : ℕ → ℕ → ℕ → Bool
within window t x = ltb t x && leb x (t + window)

-- The requests of one identity, served one after the other at times that do not decrease, each with a
-- member of its own: the time of the last one, the times of those admitted, and the bucket.
pub data Served (window limit : ℕ) : ℕ → List ℕ → Bucket → Type 0 where
  start : Served window limit 0 [] (record { entries = []; expires_at = 0 })
  admits :
      {last : ℕ} {log : List ℕ} {b : Bucket}
      → Served window limit last log b
      → (now : ℕ) (member : Str) → last ≤ now
      → lookup member (in_window window now b) ≡ none
      → (script window limit now member b).0.allowed ≡ true
      → Served window limit now (now ∷ log) (script window limit now member b).1
  refuses :
      {last : ℕ} {log : List ℕ} {b : Bucket}
      → Served window limit last log b
      → (now : ℕ) (member : Str) → last ≤ now
      → (script window limit now member b).0.allowed ≡ false
      → Served window limit now log (script window limit now member b).1

-- The bucket holds the admitted requests that still count, and they are within the limit.
pub record Faithful (window limit last : ℕ) (log : List ℕ) (b : Bucket) : Type 0 where
  past : All (λ x. x ≤ last) log
  known :
      (t : ℕ)
      → last ≤ t
      → count (counts_at window t) log ≡ count_values (counts_at window t) b.entries
  over : (t : ℕ) → last ≤ t → b.expires_at ≤ t → count (counts_at window t) log ≡ 0
  bounded : (t : ℕ) → count (within window t) log ≤ limit
  pub fits : length b.entries ≤ limit
  pub recent : AllPairs (λ member score. score ≤ last) b.entries

none_counts :
    (window t last : ℕ) (log : List ℕ)
    → All (λ x. x ≤ last) log
    → last + window ≤ t
    → count (counts_at window t) log ≡ 0
none_counts window t last [] h late = refl
none_counts window t last (x ∷ log) h late =
    ground (arith, h.0, late, none_counts window t last log h.1)

All-le : (a b : ℕ) (log : List ℕ) → a ≤ b → All (λ x. x ≤ a) log → All (λ x. x ≤ b) log
All-le a b [] le h = tt
All-le a b (x ∷ log) le h = (omega (arith, h.0), All-le a b log le h.1)

AllPairs-le :
    (a b : ℕ) (m : Assoc ℕ)
    → a ≤ b
    → AllPairs (λ member score. score ≤ a) m
    → AllPairs (λ member score. score ≤ b) m
AllPairs-le a b [] le h = tt
AllPairs-le a b ((k, v) ∷ m) le h = (omega (arith, h.0), AllPairs-le a b m le h.1)

module _ {window limit last : ℕ} {log : List ℕ} {b : Bucket} (f : Faithful window limit last log b)
    (now : ℕ) (later : last ≤ now) where
  count-stored :
      (t : ℕ)
      → now ≤ t
      → count (counts_at window t) log ≡ count_values (counts_at window t) (stored now b)
  count-stored t le = elim (Bool-cases (ltb now b.expires_at)) [
    | inl fresh ↦ rw fresh (f.known t (omega arith))
    | inr gone ↦ rw gone (f.over t (omega arith) (ground (arith, gone)))
  ]

  count-in_window :
      (t : ℕ)
      → now ≤ t
      → count (counts_at window t) log ≡ count_values (counts_at window t) (in_window window now b)
  count-in_window t le =
      count-stored t le
      ∙ sym (
          count_values-keep (counts_at window t) (counts_at window now) (stored now b)
            (λ v h. ground (arith, h, le)))

  length-in_window : length (in_window window now b) ≡ count (counts_at window now) log
  length-in_window =
      length-keep (counts_at window now) (stored now b) ∙ sym (count-stored now (omega arith))

  stored-recent : AllPairs (λ member score. score ≤ now) (stored now b)
  stored-recent = elim (Bool-cases (ltb now b.expires_at)) [
    | inl fresh ↦ rw fresh (AllPairs-le last now b.entries later f.recent)
    | inr gone ↦ rw gone tt
  ]

  stored-fits : length (stored now b) ≤ limit
  stored-fits = elim (Bool-cases (ltb now b.expires_at)) [
    | inl fresh ↦ rw fresh f.fits
    | inr gone ↦ rw gone (omega arith)
  ]

  pub in_window-recent : AllPairs (λ member score. score ≤ now) (in_window window now b)
  in_window-recent =
      keep-AllPairs (λ member score. score ≤ now) (counts_at window now) (stored now b)
        stored-recent

  pub in_window-fits : length (in_window window now b) ≤ limit
  in_window-fits = omega (
    arith,
    length-keep (counts_at window now) (stored now b),
    count-le-length (λ (e : Str × ℕ). counts_at window now e.1) (stored now b),
    stored-fits,
  )

  -- What was admitted in a window that ends now or later and begins before still counts now.
  count-within :
      (t : ℕ)
      → t < now
      → now ≤ t + window
      → count (within window t) log ≤ length (in_window window now b)
  count-within t lt le = omega (
    arith,
    count_mono (within window t) (counts_at window now) log (λ x h. ground (arith, h, le)),
    length-in_window,
  )

  admits-Faithful :
      (member : Str)
      → lookup member (in_window window now b) ≡ none
      → (script window limit now member b).0.allowed ≡ true
      → Faithful window limit now (now ∷ log) (script window limit now member b).1
  unfolding script
  admits-Faithful member new h = elim (Bool-cases (ltb (length (in_window window now b)) limit)) [
    | inr full ↦ absurd (ground (arith, full, h))
    | inl room ↦ rw room (record {
      past = (omega arith, All-le last now log later f.past);
      known = λ t le. ground (
        arith,
        count-in_window t le,
        count_values-insert (counts_at window t) member now (in_window window now b) new,
      );
      over = λ t le gone. ground (arith, gone, none_counts window t last log f.past);
      bounded = λ t. ground (arith, room, f.bounded t, count-within t);
      fits = ground (arith, room, length-insert_new member now (in_window window now b) new);
      recent =
          insert-AllPairs (λ member score. score ≤ now) member now (in_window window now b)
            (omega arith) in_window-recent;
    })
  ]

  refuses-Faithful :
      (member : Str)
      → (script window limit now member b).0.allowed ≡ false
      → Faithful window limit now log (script window limit now member b).1
  unfolding script
  refuses-Faithful member h = elim (Bool-cases (ltb (length (in_window window now b)) limit)) [
    | inl room ↦ absurd (ground (arith, room, h))
    | inr full ↦ rw full (record {
      past = All-le last now log later f.past;
      known = λ t le. count-in_window t le;
      over = λ t le gone. ground (arith, gone, none_counts window t last log f.past);
      bounded = f.bounded;
      fits = in_window-fits;
      recent = in_window-recent;
    })
  ]

start-Faithful :
    (window limit : ℕ) → Faithful window limit 0 [] (record { entries = []; expires_at = 0 })
start-Faithful window limit = record {
  past = tt;
  known = λ t h. refl;
  over = λ t h e. refl;
  bounded = λ t. omega arith;
  fits = omega arith;
  recent = tt;
}

pub Served-Faithful :
    (window limit last : ℕ) (log : List ℕ) (b : Bucket)
    → Served window limit last log b
    → Faithful window limit last log b
Served-Faithful window limit last log b start = start-Faithful window limit
Served-Faithful window limit last log b (admits r now member le new h) =
    admits-Faithful (Served-Faithful window limit _ _ _ r) now le member new h
Served-Faithful window limit last log b (refuses r now member le h) =
    refuses-Faithful (Served-Faithful window limit _ _ _ r) now le member h

-- Whenever the requests of an identity come, with times that do not decrease and members that do not
-- collide, no window of the configured length, wherever it begins, has more admitted requests than the limit.
pub window_never_exceeded :
    (window limit last : ℕ) (log : List ℕ) (b : Bucket) (t : ℕ)
    → Served window limit last log b
    → count (within window t) log ≤ limit
window_never_exceeded window limit last log b t r =
    (Served-Faithful window limit last log b r).bounded t
