-- ===== src/Banking/Models.antt =====
-- banking/models.py and the state and answers of banking/repository.py.
use fxfill_enterprise_bankin.Common.{
  ℕ, String, Bool, true, false, Option, none, some, List, [], ◌∷◌, ◌==◌, ltb, if◌then◌else◌,
}

-- What the repository uses of floats, with the limit on a transaction.
pub record Money (A : Type 0) : Type 0 where
  pub lt : A → A → Bool
  pub le : A → A → Bool
  pub sub : A → A → A
  pub neg : A → A
  pub zero_amount : A
  pub transaction_limit : A

pub data TransferStatus : Type 0 where
  draft pending completed cancelled failed : TransferStatus

pub record Account (A : Type 0) : Type 0 where
  pub account_id : String
  pub owner_id : String
  pub account_type : String
  pub balance : A
  pub currency : String
  pub active : Bool

pub record Beneficiary : Type 0 where
  pub beneficiary_id : String
  pub name : String
  pub account_holder : String
  pub bank_code : String
  pub account_number : String
  pub active : Bool

pub record Transaction (A : Type 0) : Type 0 where
  pub transaction_id : String
  pub account_id : String
  pub amount : A
  pub currency : String
  pub description : String
  pub timestamp : ℕ

pub record TransferDraft (A : Type 0) : Type 0 where
  pub draft_id : String
  pub source_account_id : String
  pub beneficiary_id : String
  pub amount : A
  pub currency : String
  pub description : String
  pub status : TransferStatus
  pub idempotency_key : String
  pub created_at : ℕ
  pub expires_at : Option ℕ

pub record Repository (A : Type 0) : Type 0 where
  pub accounts : List (Account A)
  pub beneficiaries : List Beneficiary
  pub transactions : List (Transaction A)
  pub transfer_drafts : List (TransferDraft A)
  pub completed_transfers : List String

-- The error texts.
pub data TransferError : Type 0 where
  account_not_found account_inactive not_owner beneficiary_not_found beneficiary_inactive
        amount_not_positive amount_over_limit unsupported_currency insufficient_funds
        already_completed draft_not_found ownership_violation draft_expired missing_account :
      TransferError
  draft_already cannot_cancel : TransferStatus → TransferError

pub data Reply (B : Type 0) : Type 0 where
  ok : B → Reply B
  refused : TransferError → Reply B

-- d[key(v)] = v
abbrev pub put : {A : Type 0} → (A → String) → A → List A → List A
put key v [] = v ∷ []
put key v (w ∷ ws) = if key w == key v then v ∷ ws else w ∷ put key v ws

abbrev pub account_key : {A : Type 0} → Account A → String
account_key a = a.account_id

abbrev pub draft_key : {A : Type 0} → TransferDraft A → String
draft_key d = d.draft_id

abbrev pub beneficiary_key : Beneficiary → String
beneficiary_key b = b.beneficiary_id

abbrev pub is_draft : TransferStatus → Bool
is_draft draft = true
is_draft _ = false

abbrev pub is_cancellable : TransferStatus → Bool
is_cancellable draft = true
is_cancellable pending = true
is_cancellable _ = false

-- SUPPORTED_CURRENCIES
abbrev pub supported_currencies : List String
supported_currencies = "USD" ∷ "EUR" ∷ "GBP" ∷ "JPY" ∷ "CHF" ∷ []

-- TRANSFER_DRAFT_EXPIRY_MINUTES, in microseconds
abbrev pub draft_lifetime : ℕ
draft_lifetime = 1800000000

abbrev pub is_past : ℕ → Option ℕ → Bool
is_past now none = false
is_past now (some e) = ltb e now

-- The arguments of `create_transfer_draft`.
pub record DraftRequest (A : Type 0) : Type 0 where
  pub source_account_id : String
  pub beneficiary_id : String
  pub amount : A
  pub currency : String
  pub user_id : String
  pub idempotency_key : String
  pub description : String
