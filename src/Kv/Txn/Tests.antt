-- ===== src/Kv/Txn/Tests.antt =====
-- Transactions on concrete inputs.
use quorum_market.Common.{refl, pos, bytes, str_eq, lookup, insert}
use quorum_market.Kv.Txn.{committed, TxnManager, new_txn_manager, begin, resolve, sweep}
use quorum_market.Kv.Txn.Lifecycle.{Run, start, begun, resolved, swept, Accounts, Run-Accounts}

abbrev opened : TxnManager
opened = (begin (bytes "t") 7 (new_txn_manager (pos 0))).0

-- one transaction is committed, another is reaped
a_run :
    Run 2 (sweep 400000000000 (resolve (bytes "t") committed (begin (bytes "u") 8 opened).0).0).0
unfolding begin new_txn_manager lookup insert str_eq
a_run =
    swept
      (resolved (begun (begun (start (pos 0)) (bytes "t") 7 refl) (bytes "u") 8 refl) (bytes "t")
        committed)
      400000000000

Run-Accounts_example :
    Accounts 2
      (sweep 400000000000 (resolve (bytes "t") committed (begin (bytes "u") 8 opened).0).0).0
Run-Accounts_example = Run-Accounts a_run
