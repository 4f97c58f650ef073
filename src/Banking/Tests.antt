-- ===== src/Banking/Tests.antt =====
-- Runs of banking/repository.py, with whole numbers for amounts.
use fxfill_enterprise_bankin.Common.{
  ℕ, ◌-◌, ◌≤◌, ◌≡◌, refl, true, false, some, List, [], ◌∷◌, ltb, leb,
}
use fxfill_enterprise_bankin.Sql.{find}
use fxfill_enterprise_bankin.Banking.{
  Money, TransferStatus, Account, Beneficiary, TransferDraft, Repository, DraftRequest, draft_key,
  owner_of, submit_transfer, submit_draft, debit, create_transfer_draft, check_request, new_draft,
}
use fxfill_enterprise_bankin.Banking.Reads.{
  ℤ, get_balance, get_summary, list_transactions, answers, reads_exactly_for_owner,
}
use fxfill_enterprise_bankin.Banking.Completion.{
  Op, do_create, do_submit, do_cancel, completions, one_completion_per_key,
}
use fxfill_enterprise_bankin.Banking.Transfers.{Debited, is_ok, submit_transfer_debits}

abbrev money : Money ℕ
money = record {
  lt = ltb;
  le = leb;
  sub = λ a b. a - b;
  neg = λ a. a;
  zero_amount = 0;
  transaction_limit = 100000;
}

abbrev account : Account ℕ
account = record {
  account_id = "a1";
  owner_id = "alice";
  account_type = "checking";
  balance = 50;
  currency = "USD";
  active = true;
}

abbrev payee : Beneficiary
payee = record {
  beneficiary_id = "b1";
  name = "Bob";
  account_holder = "Bob";
  bank_code = "";
  account_number = "";
  active = true;
}

abbrev request : DraftRequest ℕ
request = record {
  source_account_id = "a1";
  beneficiary_id = "b1";
  amount = 30;
  currency = "USD";
  user_id = "alice";
  idempotency_key = "k1";
  description = "";
}

abbrev with_draft : TransferStatus → ℕ → Repository ℕ
with_draft st amount = record {
  accounts = account ∷ [];
  beneficiaries = payee ∷ [];
  transactions = [];
  transfer_drafts = record (new_draft request "d1" 10) { status = st; amount = amount } ∷ [];
  completed_transfers = [];
}

abbrev clock : ℕ → ℕ
clock i = 20

drafted :
    is_ok (create_transfer_draft money request "d2" 10 (with_draft TransferStatus.draft 30)).0
    ≡ true
unfolding create_transfer_draft check_request find
drafted = refl

submitted :
    is_ok (submit_transfer money "d1" "alice" "t1" clock (with_draft TransferStatus.draft 30)).0
    ≡ true
unfolding submit_transfer submit_draft debit owner_of find
submitted = refl

uncovered :
    is_ok (submit_transfer money "d1" "alice" "t1" clock (with_draft TransferStatus.draft 70)).0
    ≡ false
unfolding submit_transfer submit_draft debit owner_of find
uncovered = refl

submit_transfer_debits_example :
    Debited money "d1" "alice" 20
      (with_draft TransferStatus.draft 30)
      (submit_transfer money "d1" "alice" "t1" clock (with_draft TransferStatus.draft 30)).1
submit_transfer_debits_example =
    submit_transfer_debits money "alice" "t1" clock (with_draft TransferStatus.draft 30) "d1"
      submitted

-- Two drafts with one key are submitted, the first of them twice.
abbrev ops : List (Op ℕ)
ops =
    do_create request "d2" 10
    ∷ do_submit "d1" "alice" "t1" clock
    ∷ do_submit "d1" "alice" "t2" clock
    ∷ do_submit "d2" "alice" "t3" clock
    ∷ do_cancel "d2" "alice"
    ∷ []

one_completion_per_key_example : completions money "k1" ops (with_draft TransferStatus.draft 30) ≤ 1
one_completion_per_key_example =
    one_completion_per_key money "k1" refl ops (with_draft TransferStatus.draft 30)

abbrev cancelled_draft : TransferDraft ℕ
cancelled_draft = record (new_draft request "d1" 10) { status = TransferStatus.cancelled }

stored_draft :
    find draft_key "d1" (with_draft TransferStatus.cancelled 30).transfer_drafts
    ≡ some cancelled_draft
unfolding find
stored_draft = refl

reads_exactly_for_owner_example :
    (answers (get_balance "a1" "bob" (with_draft TransferStatus.draft 30))
      ≡ owner_of "a1" "bob" (with_draft TransferStatus.draft 30))
    × (answers (get_summary "a1" "bob" (with_draft TransferStatus.draft 30))
        ≡ owner_of "a1" "bob" (with_draft TransferStatus.draft 30))
    × (answers (list_transactions "a1" "bob" (ℤ.pos 5) (with_draft TransferStatus.draft 30))
        ≡ owner_of "a1" "bob" (with_draft TransferStatus.draft 30))
reads_exactly_for_owner_example =
    reads_exactly_for_owner "a1" "bob" (ℤ.pos 5) (with_draft TransferStatus.draft 30)
