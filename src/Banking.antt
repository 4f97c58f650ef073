-- ===== src/Banking.antt =====
-- banking/repository.py: the transfers of the synthetic bank. A dict of objects is the list of its
-- values in insertion order, each under the key that it carries; the transactions of an account are
-- those of one list with its account id. Amounts are Python floats, so their type and operations are
-- a parameter (`Money`); times are microseconds.
pub mod Models
pub mod Reads
pub mod Transfers
pub mod Completion
mod Tests
pub use Models.{
  Money, TransferStatus, Account, Beneficiary, Transaction, TransferDraft, Repository,
  TransferError, Reply, put, account_key, draft_key, beneficiary_key, is_draft, is_cancellable,
  supported_currencies, draft_lifetime, is_past, DraftRequest, draft, pending, completed, cancelled,
  failed, ok, refused, account_not_found, account_inactive, not_owner, beneficiary_not_found,
  beneficiary_inactive, amount_not_positive, amount_over_limit, unsupported_currency,
  insufficient_funds, already_completed, draft_not_found, ownership_violation, draft_expired,
  missing_account, draft_already, cannot_cancel,
}
use fxfill_enterprise_bankin.Common.{
  ℕ, String, Bool, true, false, not, ◌&&◌, ◌||◌, Option, none, some, List, [], ◌∷◌, ◌++◌, contains,
  is_nonempty, ◌==◌, ltb, if◌then◌else◌, ◌+◌,
}
use fxfill_enterprise_bankin.Sql.{find}
use Prim.Native.String

module _ {A : Type 0} where
  unfoldable pub owner_of : String → String → Repository A → Bool
  owner_of account_id user_id repo = elim (find account_key account_id repo.accounts) [
    | none ↦ false
    | some acc ↦ acc.owner_id == user_id
  ]

  abbrev pub new_draft : DraftRequest A → String → ℕ → TransferDraft A
  new_draft q uuid now = record {
    draft_id = uuid;
    source_account_id = q.source_account_id;
    beneficiary_id = q.beneficiary_id;
    amount = q.amount;
    currency = q.currency;
    description = q.description;
    status = draft;
    idempotency_key = q.idempotency_key;
    created_at = now;
    expires_at = some (now + draft_lifetime);
  }

  -- The first check that fails, if one does.
  abbrev pub check_amount :
      Money A → DraftRequest A → Account A → List String → Option TransferError
  check_amount m q acc used =
      if m.le q.amount m.zero_amount
      then some amount_not_positive
      else if m.lt m.transaction_limit q.amount
      then some amount_over_limit
      else if not (contains q.currency supported_currencies)
      then some unsupported_currency
      else if m.lt acc.balance q.amount
      then some insufficient_funds
      else if contains q.idempotency_key used
      then some already_completed
      else none

  unfoldable pub check_request : Money A → DraftRequest A → Repository A → Option TransferError
  check_request m q repo = elim (find account_key q.source_account_id repo.accounts) [
    | none ↦ some account_not_found
    | some acc ↦
        if not acc.active
        then some account_inactive
        else if not (acc.owner_id == q.user_id)
        then some not_owner
        else (elim (find beneficiary_key q.beneficiary_id repo.beneficiaries) [
          | none ↦ some beneficiary_not_found
          | some ben ↦
              if not ben.active
              then some beneficiary_inactive
              else check_amount m q acc repo.completed_transfers
        ])
  ]

  unfoldable pub create_transfer_draft :
      Money A → DraftRequest A → String → ℕ → Repository A → Reply (TransferDraft A) × Repository A
  create_transfer_draft m q uuid now repo = elim (check_request m q repo) [
    | some e ↦ (refused e, repo)
    | none ↦ (
      ok (new_draft q uuid now),
      record repo { transfer_drafts = put draft_key (new_draft q uuid now) repo.transfer_drafts },
    )
  ]

  abbrev pub set_status : TransferStatus → TransferDraft A → Repository A → Repository A
  set_status st d repo = record repo {
    transfer_drafts = put draft_key (record d { status = st }) repo.transfer_drafts;
  }

  abbrev pub transaction_of : Money A → TransferDraft A → String → ℕ → Transaction A
  transaction_of m d uuid now = record {
    transaction_id = uuid;
    account_id = d.source_account_id;
    amount = m.neg d.amount;
    currency = d.currency;
    description =
        if is_nonempty d.description
        then d.description
        else String.◌++◌ "Transfer to " d.beneficiary_id;
    timestamp = now;
  }

  -- From the balance check on.
  unfoldable pub debit :
      Money A
      → TransferDraft A
      → Account A
      → String
      → ℕ
      → Repository A
      → Reply (TransferDraft A) × Repository A
  debit m d acc uuid now repo =
      if m.lt acc.balance d.amount then (refused insufficient_funds, repo) else (
        ok (record d { status = completed }),
        record {
          accounts =
              put account_key (record acc { balance = m.sub acc.balance d.amount }) repo.accounts;
          beneficiaries = repo.beneficiaries;
          transactions = repo.transactions ++ transaction_of m d uuid now ∷ [];
          transfer_drafts = put draft_key (record d { status = completed }) repo.transfer_drafts;
          completed_transfers =
              if is_nonempty d.idempotency_key
              then d.idempotency_key ∷ repo.completed_transfers
              else repo.completed_transfers;
        },
      )

  unfoldable pub submit_draft :
      Money A
      → TransferDraft A
      → String
      → String
      → (ℕ → ℕ)
      → Repository A
      → Reply (TransferDraft A) × Repository A
  submit_draft m d user_id uuid now repo =
      if not (is_draft d.status)
      then (refused (draft_already d.status), repo)
      else if not (owner_of d.source_account_id user_id repo)
      then (refused ownership_violation, repo)
      else if is_past (now 0) d.expires_at
      then (refused draft_expired, set_status failed d repo)
      else if is_nonempty d.idempotency_key && contains d.idempotency_key repo.completed_transfers
      then (refused already_completed, repo)
      else (elim (find account_key d.source_account_id repo.accounts) [
        | none ↦ (refused missing_account, repo)
        | some acc ↦ debit m d acc uuid (now 1) repo
      ])

  unfoldable pub submit_transfer :
      Money A
      → String
      → String
      → String
      → (ℕ → ℕ)
      → Repository A
      → Reply (TransferDraft A) × Repository A
  submit_transfer m draft_id user_id uuid now repo =
      elim (find draft_key draft_id repo.transfer_drafts) [
        | none ↦ (refused draft_not_found, repo)
        | some d ↦ submit_draft m d user_id uuid now repo
      ]

  unfoldable pub cancel_transfer : String → String → Repository A → Reply Bool × Repository A
  cancel_transfer draft_id user_id repo = elim (find draft_key draft_id repo.transfer_drafts) [
    | none ↦ (refused draft_not_found, repo)
    | some d ↦
        if not (is_cancellable d.status)
        then (refused (cannot_cancel d.status), repo)
        else if not (owner_of d.source_account_id user_id repo)
        then (refused ownership_violation, repo)
        else (ok true, set_status cancelled d repo)
  ]
