-- ===== src/Banking/Transfers.antt =====
-- What one operation of banking/repository.py does to the accounts and the drafts.
use fxfill_enterprise_bankin.Common.{
  ℕ, String, ◌≡◌, ◌≢◌, refl, Bool, true, false, ◌||◌, none, some, List, [], ◌∷◌, contains,
  is_nonempty, ◌==◌, eq_iff, eq_self, if◌then◌else◌, arith, inl, inr, Option-cases, Bool-cases,
}
use fxfill_enterprise_bankin.Sql.{find, key-find}
use fxfill_enterprise_bankin.Banking.{
  Money, TransferStatus, draft, completed, cancelled, failed, Account, TransferDraft, Repository,
  Reply, ok, refused, put, draft_key, account_key, create_transfer_draft, submit_transfer,
  submit_draft, debit, cancel_transfer, new_draft, owner_of, is_past,
}
use fxfill_enterprise_bankin.Banking.Completion.{Op, do_create, do_submit, do_cancel, apply}

find-put :
    {R : Type 0}
    → (key : R → String) (v : R) (j : String) (rows : List R)
    → find key j (put key v rows) ≡ (if key v == j then some v else find key j rows)
unfolding find
find-put key v j [] = refl
find-put key v j (w ∷ ws) =
    ground (arith, find-put key v j ws, eq_iff (key w) (key v), eq_iff (key w) j, eq_iff (key v) j)

-- What the caller of a transfer that went through can rely on.
pub record Debited {A : Type 0} (m : Money A) (id user : String) (now : ℕ)
    (repo repo' : Repository A) : Type 0 where
  pub d : TransferDraft A
  pub acc : Account A
  pub found : find draft_key id repo.transfer_drafts ≡ some d
  pub was_draft : d.status ≡ draft
  pub in_time : is_past now d.expires_at ≡ false
  pub source : find account_key d.source_account_id repo.accounts ≡ some acc
  pub owned : acc.owner_id ≡ user
  pub covered : m.lt acc.balance d.amount ≡ false
  pub accounts :
      (j : String)
      → find account_key j repo'.accounts ≡ (
          if d.source_account_id == j
          then some (record acc { balance = m.sub acc.balance d.amount })
          else find account_key j repo.accounts)
  pub completes : find draft_key id repo'.transfer_drafts ≡ some (record d { status = completed })
  pub used_keys :
      contains d.idempotency_key repo'.completed_transfers
      ≡ (is_nonempty d.idempotency_key || contains d.idempotency_key repo.completed_transfers)

abbrev pub is_ok : {B : Type 0} → Reply B → Bool
is_ok (ok b) = true
is_ok (refused e) = false

module _ {A : Type 0} (m : Money A) (user uuid : String) (now : ℕ → ℕ) (repo : Repository A) where
  debit-Debited :
      (id : String) (d : TransferDraft A) (acc : Account A)
      → find draft_key id repo.transfer_drafts ≡ some d
      → d.status ≡ draft
      → is_past (now 0) d.expires_at ≡ false
      → find account_key d.source_account_id repo.accounts ≡ some acc
      → acc.owner_id ≡ user
      → is_ok (debit m d acc uuid (now 1) repo).0 ≡ true
      → Debited m id user (now 0) repo (debit m d acc uuid (now 1) repo).1
  unfolding debit
  debit-Debited id d acc found was in_time source owned h =
      elim (Bool-cases (m.lt acc.balance d.amount)) [
        | inl e ↦ ground arith
        | inr e ↦ record {
          d = d;
          acc = acc;
          found = found;
          was_draft = was;
          in_time = in_time;
          source = source;
          owned = owned;
          covered = e;
          accounts = λ j. ground (
            arith,
            eq_iff acc.account_id j,
            eq_iff acc.account_id d.source_account_id,
            eq_iff d.source_account_id j,
            key-find account_key d.source_account_id repo.accounts acc source,
            find-put account_key (record acc { balance = m.sub acc.balance d.amount }) j
                repo.accounts,
          );
          completes = ground (
            arith,
            eq_iff d.draft_id id,
            key-find draft_key id repo.transfer_drafts d found,
            find-put draft_key (record d { status = completed }) id repo.transfer_drafts,
          );
          used_keys = ground (arith, eq_self d.idempotency_key);
        }
      ]

  -- What a submission that is not refused passed.
  submit_draft-passed :
      (d : TransferDraft A) (acc : Account A)
      → find account_key d.source_account_id repo.accounts ≡ some acc
      → is_ok (submit_draft m d user uuid now repo).0 ≡ true
      → (submit_draft m d user uuid now repo ≡ debit m d acc uuid (now 1) repo)
        × (d.status ≡ draft)
        × (is_past (now 0) d.expires_at ≡ false)
        × (acc.owner_id ≡ user)
  unfolding submit_draft owner_of
  submit_draft-passed d acc source h = ground (arith, eq_iff acc.owner_id user)

  submit_draft-account :
      (d : TransferDraft A)
      → is_ok (submit_draft m d user uuid now repo).0 ≡ true
      → find account_key d.source_account_id repo.accounts ≢ none
  unfolding submit_draft owner_of
  submit_draft-account d h e = ground arith

  submit_draft-Debited :
      (id : String) (d : TransferDraft A)
      → find draft_key id repo.transfer_drafts ≡ some d
      → is_ok (submit_draft m d user uuid now repo).0 ≡ true
      → Debited m id user (now 0) repo (submit_draft m d user uuid now repo).1
  submit_draft-Debited id d found h =
      elim (Option-cases (find account_key d.source_account_id repo.accounts)) [
        | inl e ↦ elim (submit_draft-account d h e) [ ]
        | inr (acc, e) ↦
            (let (same, was, in_time, owned) = submit_draft-passed d acc e h in
              rw same (debit-Debited id d acc found was in_time e owned (rw same at h)))
      ]

  -- A submitted transfer that is not refused was an unexpired draft of the account's owner with
  -- sufficient funds; it debits the source account by the amount, leaves every other account as it
  -- was, completes the draft, and uses up its idempotency key if that is not empty.
  pub submit_transfer_debits :
      (id : String)
      → is_ok (submit_transfer m id user uuid now repo).0 ≡ true
      → Debited m id user (now 0) repo (submit_transfer m id user uuid now repo).1
  unfolding submit_transfer
  submit_transfer_debits id h = elim (Option-cases (find draft_key id repo.transfer_drafts)) [
    | inl e ↦ ground arith
    | inr (d, e) ↦
        rw (e, submit_transfer) (submit_draft-Debited id d e (rw (e, submit_transfer) at h))
  ]

  -- A submission that is refused leaves the accounts, the transactions and the used keys as they
  -- were.
  pub refused_submit_keeps_money :
      (id : String)
      → is_ok (submit_transfer m id user uuid now repo).0 ≡ false
      → ((submit_transfer m id user uuid now repo).1.accounts ≡ repo.accounts)
        × ((submit_transfer m id user uuid now repo).1.transactions ≡ repo.transactions)
        × ((submit_transfer m id user uuid now repo).1.completed_transfers
            ≡ repo.completed_transfers)
  unfolding submit_transfer submit_draft debit
  refused_submit_keeps_money id h = ground arith

-- The statuses that no operation leaves.
abbrev pub is_final : TransferStatus → Bool
is_final completed = true
is_final cancelled = true
is_final failed = true
is_final _ = false

module _ {A : Type 0} where
  -- A draft that is written back under its id, where the draft with that id was not final.
  put-keeps :
      (id j : String) (d d' e : TransferDraft A) (rows : List (TransferDraft A))
      → find draft_key id rows ≡ some d'
      → find draft_key j rows ≡ some d
      → is_final d.status ≡ true
      → is_final d'.status ≡ false
      → e.draft_id ≡ d'.draft_id
      → find draft_key j (put draft_key e rows) ≡ some d
  put-keeps id j d d' e rows here there final not_final same =
      ground (
        arith,
        find-put draft_key e j rows,
        key-find draft_key id rows d' here,
        eq_iff e.draft_id j,
      )

  submit-keeps :
      (m : Money A) (id user uuid : String) (now : ℕ → ℕ) (j : String) (d : TransferDraft A)
      (repo : Repository A)
      → find draft_key j repo.transfer_drafts ≡ some d
      → is_final d.status ≡ true
      → find draft_key j (submit_transfer m id user uuid now repo).1.transfer_drafts ≡ some d
  unfolding submit_transfer submit_draft debit
  submit-keeps m id user uuid now j d repo h f =
      elim (Option-cases (find draft_key id repo.transfer_drafts)) [
        | inl e ↦ ground arith
        | inr (d', e) ↦ ground (
          arith,
          put-keeps id j d d' (record d' { status = failed }) repo.transfer_drafts e h f,
          put-keeps id j d d' (record d' { status = completed }) repo.transfer_drafts e h f,
        )
      ]

  cancel-keeps :
      (id user j : String) (d : TransferDraft A) (repo : Repository A)
      → find draft_key j repo.transfer_drafts ≡ some d
      → is_final d.status ≡ true
      → find draft_key j (cancel_transfer id user repo).1.transfer_drafts ≡ some d
  unfolding cancel_transfer
  cancel-keeps id user j d repo h f = elim (Option-cases (find draft_key id repo.transfer_drafts)) [
    | inl e ↦ ground arith
    | inr (d', e) ↦
        ground
          (arith, put-keeps id j d d' (record d' { status = cancelled }) repo.transfer_drafts e h f)
  ]

-- The operation does not create a draft with the id.
abbrev pub IsNotCreation : {A : Type 0} → String → Op A → Type 0
IsNotCreation j (do_create q uuid now) = uuid ≢ j
IsNotCreation j _ = Unit

-- A completed, cancelled or failed draft stays as it is under every operation that does not create
-- a draft under its id.
pub final_draft_is_kept :
    {A : Type 0}
    → (m : Money A) (op : Op A) (j : String) (d : TransferDraft A) (repo : Repository A)
    → IsNotCreation j op
    → find draft_key j repo.transfer_drafts ≡ some d
    → is_final d.status ≡ true
    → find draft_key j (apply m op repo).transfer_drafts ≡ some d
unfolding apply create_transfer_draft
final_draft_is_kept m (do_create q uuid now) j d repo n h f =
    ground (arith, find-put draft_key (new_draft q uuid now) j repo.transfer_drafts, eq_iff uuid j)
final_draft_is_kept m (do_submit id user uuid now) j d repo n h f =
    submit-keeps m id user uuid now j d repo h f
final_draft_is_kept m (do_cancel id user) j d repo n h f = cancel-keeps id user j d repo h f
