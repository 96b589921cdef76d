-- ===== src/Ledger/Keeps.antt =====
-- A property of the ledger that the single statements keep is kept by the transactions made of
-- them.
use microfinance_microservic.Common.{ℕ, String, Option}
use microfinance_microservic.Ledger.{insert_holder, create_account}
use microfinance_microservic.Ledger.Tables.{
  Account, Card, Db, Result, ok, err, Tx, pure, ◌>>=◌, ◌>>◌, settle, transaction, insert_account,
  insert_card,
}

module _ (P : Db → Type 0) where
  -- A transaction leaves what its body reached, or what was there before.
  pub transaction-keeps :
      {A : Type 0} (m : Tx A) (db : Db) → P db → P (m db).1 → P (transaction m db).1
  transaction-keeps {A = A} m db before after = settled (m db) after
    where
      settled : (end : Result A × Db) → P end.1 → P (settle db end).1
      settled (ok a, after) v = v
      settled (err e, after) v = before

  bind-keeps :
      {A B : Type 0} (m : Tx A) (f : A → Tx B) (db : Db)
      → P (m db).1
      → ((a : A) (db' : Db) → P db' → P (f a db').1)
      → P ((m >>= f) db).1
  bind-keeps {A = A} {B = B} m f db v keep = next (m db) v
    where
      next :
          (end : Result A × Db)
          → P end.1
          → P (elim end.0 as (λ r. Result B × Db) [ ok a ↦ f a end.1 | err e ↦ (err e, end.1) ]).1
      next (ok a, db') v' = keep a db' v'
      next (err e, db') v' = v'

  module _ (account_step : (a : Account) (db : Db) → P db → P (insert_account a db).1)
      (card_step : (c : Card) (db : Db) → P db → P (insert_card c db).1) where
    insert_holder-keeps : (a : Account) (c : Card) (db : Db) → P db → P (insert_holder a c db).1
    unfolding insert_holder
    insert_holder-keeps a c db v =
        bind-keeps (insert_account a) (λ _. insert_card c >> pure a.account_id) db
          (account_step a db v)
          λ u db' v'.
            bind-keeps (insert_card c) (λ _. pure a.account_id) db' (card_step c db' v')
              (λ u' db'' v''. v'')

    pub create_account-keeps :
        (now : ℕ) (account_id user_id card_number account_type : String) (msisdn : Option String)
        (db : Db)
        → P db
        → P (create_account now account_id user_id card_number account_type msisdn db).1
    unfolding create_account
    create_account-keeps now account_id user_id card_number account_type msisdn db v =
        transaction-keeps (insert_holder _ _) db v (insert_holder-keeps _ _ db v)
