-- ===== src/Httpx/Middleware/Slots.antt =====
-- The slots of the limiter of internal/httpx/middleware.go, as requests arrive and end in any order.
use quorum_market.Common.{
  ℕ, suc, ◌-◌, ◌≡◌, ◌≤◌, Bool, true, false, List, [], ◌∷◌, ◌++◌, ℤ, pos, pos_part, leb_ℤ, ltb,
  if◌then◌else◌, count, Str, arith, Bool-cases, inl, inr,
}
use quorum_market.Httpx.Middleware.{Admission, bypassed, admitted, shed, admit, is_probe}

-- The requests that are being served, by how they were admitted, and the slots that are taken.
pub record Server : Type 0 where
  pub in_flight : List Admission
  pub taken : ℕ

abbrev pub holds_slot : Admission → Bool
holds_slot admitted = true
holds_slot bypassed = false
holds_slot shed = false

-- A request that is shed is answered at once. A slot is given back when its request ends, by whatever
-- way its handler ends, since the limiter defers this.
abbrev pub arrive : Admission → Server → Server
arrive admitted s = record { in_flight = admitted ∷ s.in_flight; taken = suc s.taken }
arrive bypassed s = record s { in_flight = bypassed ∷ s.in_flight }
arrive shed s = s

abbrev pub slots_after : Admission → ℕ → ℕ
slots_after a taken = if holds_slot a then taken - 1 else taken

pub data Step (limit : ℤ) : Server → Server → Type 0 where
  arrives : (s : Server) (path : Str) → Step limit s (arrive (admit limit s.taken path) s)
  ends :
      (before after : List Admission) (a : Admission) (taken : ℕ)
      → Step limit
          (record { in_flight = before ++ (a ∷ after); taken = taken })
          (record { in_flight = before ++ after; taken = slots_after a taken })

pub data Run (limit : ℤ) (s : Server) : Server → Type 0 where
  start : Run limit s s
  step : {t u : Server} → Run limit s t → Step limit t u → Run limit s u

count-middle :
    (before after : List Admission) (a : Admission)
    → count holds_slot (before ++ (a ∷ after)) ≡ (
        if holds_slot a
        then suc (count holds_slot (before ++ after))
        else count holds_slot (before ++ after))
count-middle [] after a = ground arith
count-middle (b ∷ before) after a = ground (arith, count-middle before after a)

abbrev IsCounted : ℤ → Server → Type 0
IsCounted limit s = (s.taken ≡ count holds_slot s.in_flight) × (s.taken ≤ pos_part limit)

arrive-IsCounted :
    (limit : ℤ) (s : Server) (path : Str)
    → IsCounted limit s
    → IsCounted limit (arrive (admit limit s.taken path) s)
unfolding admit
arrive-IsCounted limit s path h = elim (Bool-cases (leb_ℤ limit (pos 0))) [
  | inl off ↦ rw off h
  | inr on ↦ elim (Bool-cases (is_probe path)) [
    | inl probe ↦ rw (on, probe) h
    | inr asked ↦ elim (Bool-cases (ltb s.taken (pos_part limit))) [
      | inl free ↦ rw (on, asked, free) (ground (arith, h.0), ground (arith, free))
      | inr full ↦ rw (on, asked, full) h
    ]
  ]
]

Step-IsCounted : (limit : ℤ) {s t : Server} → Step limit s t → IsCounted limit s → IsCounted limit t
Step-IsCounted limit (arrives s path) h = arrive-IsCounted limit s path h
Step-IsCounted limit (ends before after a taken) h =
    ground (arith, count-middle before after a, h.0, h.1)

-- However requests arrive and end, from a server that serves none: the slots that are taken are those
-- of the requests that are being served and were given one, so that none is lost, and these requests
-- are never more than the limit.
pub slots_are_counted :
    (limit : ℤ) (s t : Server)
    → s.in_flight ≡ []
    → s.taken ≡ 0
    → Run limit s t
    → (t.taken ≡ count holds_slot t.in_flight) × (count holds_slot t.in_flight ≤ pos_part limit)
slots_are_counted limit s t idle free run =
    let counted = go run in (counted.0, ground (arith, counted.0, counted.1))
  where
    go : {u : Server} → Run limit s u → IsCounted limit u
    go start = ground (arith, idle, free)
    go (step r last) = Step-IsCounted limit last (go r)
