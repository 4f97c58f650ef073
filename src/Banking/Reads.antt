-- ===== src/Banking/Reads.antt =====
-- The reads of banking/repository.py.
use fxfill_enterprise_bankin.Common.{
  ℕ, ◌-◌, zero, suc, String, ◌≡◌, Bool, true, false, not, Option, none, some, List, [], ◌∷◌, length,
  keep, ◌==◌, if◌then◌else◌, arith,
}
use fxfill_enterprise_bankin.Sql.{find}
use fxfill_enterprise_bankin.Banking.{Account, Transaction, Repository, account_key, owner_of}

-- A Python int.
pub data ℤ : Type 0 where
  pos : ℕ → ℤ
  negsuc : ℕ → ℤ

abbrev pub drop : {B : Type 0} → ℕ → List B → List B
drop zero xs = xs
drop (suc n) [] = []
drop (suc n) (x ∷ xs) = drop n xs

-- xs[-limit:]
abbrev pub last_items : {B : Type 0} → ℤ → List B → List B
last_items (pos zero) xs = xs
last_items (pos (suc n)) xs = drop (length xs - suc n) xs
last_items (negsuc k) xs = drop (suc k) xs

pub record AccountSummary (A : Type 0) : Type 0 where
  pub account : Account A
  pub recent_transactions : List (Transaction A)
  pub beneficiary_count : ℕ

abbrev pub answers : {B : Type 0} → Option B → Bool
answers none = false
answers (some b) = true

module _ {A : Type 0} where
  -- self.transactions.get(account_id, [])
  abbrev pub transactions_of : String → Repository A → List (Transaction A)
  transactions_of account_id repo = keep (λ t. t.account_id == account_id) repo.transactions

  unfoldable pub get_balance : String → String → Repository A → Option A
  get_balance account_id user_id repo = elim (find account_key account_id repo.accounts) [
    | none ↦ none
    | some acc ↦ if not (acc.owner_id == user_id) then none else some acc.balance
  ]

  unfoldable pub get_summary : String → String → Repository A → Option (AccountSummary A)
  get_summary account_id user_id repo = elim (find account_key account_id repo.accounts) [
    | none ↦ none
    | some acc ↦
        if not (acc.owner_id == user_id)
        then none
        else some (record {
          account = acc;
          recent_transactions = last_items (pos 10) (transactions_of account_id repo);
          beneficiary_count = length repo.beneficiaries;
        })
  ]

  unfoldable pub list_transactions :
      String → String → ℤ → Repository A → Option (List (Transaction A))
  list_transactions account_id user_id limit repo =
      if not (owner_of account_id user_id repo)
      then none
      else some (last_items limit (transactions_of account_id repo))

  -- The balance, the summary and the transactions of an account are answered exactly to its owner.
  pub reads_exactly_for_owner :
      (account_id user_id : String) (limit : ℤ) (repo : Repository A)
      → (answers (get_balance account_id user_id repo) ≡ owner_of account_id user_id repo)
        × (answers (get_summary account_id user_id repo) ≡ owner_of account_id user_id repo)
        × (answers (list_transactions account_id user_id limit repo)
            ≡ owner_of account_id user_id repo)
  unfolding get_balance get_summary list_transactions owner_of
  reads_exactly_for_owner account_id user_id limit repo = ground arith
