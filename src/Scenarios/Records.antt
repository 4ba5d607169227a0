-- ===== src/Scenarios/Records.antt =====
-- The database, artifacts, LNbits and the webhook, at small inputs.
use ganji.Base.{
  ℕ, ◌≡◌, ◌≢◌, refl, ◌≤◌, ◌&&◌, ◌||◌, trim_space, ◌↔◌, ◌⊎◌, inl, inr, Bool, true, false, none, some,
  List, [], ◌∷◌, Text, codes, length, suc, text_eq, equal_fold, is_empty, if◌then◌else◌, arith,
}
use ganji.Base.Int.{pos}
use ganji.Lnbits
use ganji.Deals.Status.{
  Status-discrete, awaiting_payment, locked, work_submitted, reviewing, released, disputed,
  refunded, can_transition,
}
use ganji.Deals.Types.{Deal, Artifact, ArtifactKind}
use ganji.Deals.World.{Result, ok, err, Error, World, Env, Call, Tables}
use ganji.Deals.Contract.Row.{row_of}
use ganji.Deals.Repository
use ganji.Deals.Repository.{
  has_id, pool, update_where, set_status, newest_first, update_status_if_current,
}
use ganji.Deals.Repository.Guarded.{update_status_if_current_swaps}
use ganji.Deals.Repository.Sorted.{IsOrdered, occurrences}
use ganji.Deals.Status.Chains.{Passes, can_transition_ends, can_transition_work_first}
use ganji.Deals.Lifecycle.{
  create_deal, update_status, rotate_share_link, dispute_deal, list_by_user,
}
use ganji.Deals.Lifecycle.Changes.{IsManual, update_status-IsManual}
use ganji.Deals.Lifecycle.Creation.{HoldAccounted, create_deal_no_orphan_hold}
use ganji.Deals.Lifecycle.Disputes.{IsStored, dispute_deal-IsStored}
use ganji.Deals.Lifecycle.Lists.{list_by_user_complete}
use ganji.Deals.Contract.{Post}
use ganji.Deals.Contract.Free.{OnOk}
use ganji.Deals.Access.{rotate_share_link_owned}
use ganji.Deals.Artifacts.{store_artifact, sanitize_ext}
use ganji.Deals.Artifacts.Upload.{BlobKept, store_artifact_no_orphan, store_artifact_within_cap}
use ganji.Deals.Artifacts.Names.{IsPlainExt, sanitize_ext-IsPlainExt}
use ganji.Lnbits.{pay_invoice}
use ganji.Lnbits.Outcomes.{SaidNo, pay_invoice-refused}
use ganji.Webhook.{PaymentNotification, handle_payment}
use ganji.Webhook.Delivery.{handle_payment_unconfirmed}
use ganji.Scenarios.Fixtures.{
  calm, config, deal_1, deal_in, world_in, client, freelancer, invoice_reply,
}

update_status_if_current_swaps_example :
    update_status_if_current calm pool deal_1 locked refunded (world_in locked) ≡ (
      ok true,
      record (world_in locked) {
        tables = record (world_in locked).tables {
          deals =
              update_where (has_id deal_1) (set_status refunded 100) (world_in locked).tables.deals;
        };
        tick = 1;
      },
    )
unfolding ganji.Base.Text-discrete Status-discrete
update_status_if_current_swaps_example =
    update_status_if_current_swaps calm deal_1 locked refunded (world_in locked) (deal_in locked)
      refl refl refl

list_by_user_complete_example :
    Post
      (λ ds after.
        IsOrdered newest_first ds
        × (occurrences (λ d. true) ds
            ≡ occurrences
                (λ d. true && (text_eq d.freelancer_id freelancer || text_eq d.client_email client))
                after.tables.deals))
      (λ _ _. Unit {0})
      (list_by_user calm config freelancer client (world_in locked))
list_by_user_complete_example =
    list_by_user_complete calm config freelancer client (λ d. true) (world_in locked)

can_transition_ends_example : length (locked ∷ disputed ∷ released ∷ []) ≤ 5
unfolding can_transition Status-discrete
can_transition_ends_example =
    can_transition_ends awaiting_payment (locked ∷ disputed ∷ released ∷ [])
      (refl, (refl, (refl, tt)))

can_transition_work_first_example :
    Passes work_submitted (locked ∷ disputed ∷ released ∷ [])
    ⊎ Passes disputed (locked ∷ disputed ∷ released ∷ [])
unfolding can_transition Status-discrete
can_transition_work_first_example =
    can_transition_work_first (locked ∷ disputed ∷ released ∷ []) (refl, (refl, (refl, tt))) refl

update_status-IsManual_example :
    OnOk
      (λ _. IsManual work_submitted)
      (update_status calm config freelancer deal_1 work_submitted (world_in locked)).0
update_status-IsManual_example =
    update_status-IsManual calm config freelancer deal_1 work_submitted (world_in locked)

create_deal_no_orphan_hold_example :
    HoldAccounted calm [] (create_deal calm config (deal_in awaiting_payment) (world_in locked))
create_deal_no_orphan_hold_example =
    create_deal_no_orphan_hold calm config (deal_in awaiting_payment) (world_in locked)

rotate_share_link_owned_example :
    ((rotate_share_link calm config freelancer deal_1 (world_in locked)).1.tables
      ≡ (world_in locked).tables)
    ⊎ ((d : Deal) × (row_of deal_1 (world_in locked).tables ≡ some d)
        × (d.freelancer_id ≡ freelancer)
        × (d.status ≢ released)
        × (d.status ≢ refunded))
rotate_share_link_owned_example =
    rotate_share_link_owned calm config (world_in locked).tables (λ t seen. refl) freelancer deal_1
      (world_in locked) refl

store_artifact_no_orphan_example :
    BlobKept
      (codes "k")
      []
      (store_artifact calm config deal_1 ArtifactKind.source_file (codes "k") 7 (world_in locked))
store_artifact_no_orphan_example =
    store_artifact_no_orphan calm config deal_1 ArtifactKind.source_file (codes "k") 7
      (world_in locked)

abbrev stored : Artifact
stored = record {
  id = codes "new";
  deal_id = deal_1;
  kind = ArtifactKind.source_file;
  storage_key = codes "k";
  uploaded_at = 100;
}

store_artifact_within_cap_example : 7 ≤ 1000
unfolding store_artifact ganji.Deals.World.◌>>=◌ Repository.create_artifact
store_artifact_within_cap_example =
    store_artifact_within_cap calm config deal_1 ArtifactKind.source_file (codes "k") 7
      (world_in locked) 1000 stored refl (omega arith) refl

sanitize_ext-IsPlainExt_example : IsPlainExt (λ c. c) (sanitize_ext (λ c. c) (codes "../a.tar.gz"))
sanitize_ext-IsPlainExt_example = sanitize_ext-IsPlainExt (λ c. c) (codes "../a.tar.gz")

pay_invoice-refused_example :
    (pay_invoice invoice_reply ≡ Lnbits.err Lnbits.refused) ↔ SaidNo invoice_reply
pay_invoice-refused_example = pay_invoice-refused invoice_reply

-- LNbits cannot be reached.
abbrev silent_lnbits : Env
silent_lnbits = record calm { check_reply = λ t. Lnbits.unreachable }

abbrev claim_of_payment : PaymentNotification
claim_of_payment = record {
  checking_id = codes "chk";
  payment_hash = [];
  amount = pos 1000;
  fee = pos 0;
  memo = [];
  status = codes "paid";
}

handle_payment_unconfirmed_example :
    ((handle_payment silent_lnbits config claim_of_payment (world_in awaiting_payment)).1.tables
      ≡ (world_in awaiting_payment).tables)
    × (((handle_payment silent_lnbits config claim_of_payment (world_in awaiting_payment)).1.calls
          ≡ [])
        ⊎ ((handle_payment silent_lnbits config claim_of_payment
              (world_in awaiting_payment)).1.calls
            ≡ Call.check (codes "chk") ∷ []))
unfolding Lnbits.check_payment
handle_payment_unconfirmed_example =
    handle_payment_unconfirmed silent_lnbits config claim_of_payment (world_in awaiting_payment)
      refl

dispute_deal-IsStored_example :
    Post
      (λ d after.
        (equal_fold calm.fold_rune d.client_email client ≡ true)
        × (is_empty (trim_space (codes "late")) ≡ false)
        × (length (trim_space (codes "late")) ≤ 2000)
        × IsStored deal_1 (trim_space (codes "late")) after.tables)
      (λ _ _. Unit {0})
      (dispute_deal calm config client deal_1 (codes "late") (world_in reviewing))
dispute_deal-IsStored_example =
    dispute_deal-IsStored calm config client deal_1 (codes "late") (world_in reviewing)
