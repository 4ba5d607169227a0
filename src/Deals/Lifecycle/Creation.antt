-- ===== src/Deals/Lifecycle/Creation.antt =====
-- `CreateDeal` of deals/service.go: what it asks of LNbits, and the row that it stores.
use ganji.Base.{
  ℕ, suc, ◌≡◌, refl, sym, ◌∙◌, ◌⊎◌, inl, inr, Bool, true, ◌&&◌, List, [], ◌∷◌, ◌++◌, any, Text,
  text_eq, Bool-cases, Option, arith,
}
use ganji.Lnbits
use ganji.Lnbits.{CreateHoldInvoiceRequest}
use ganji.Deals.Types.{Deal}
use ganji.Deals.World.{Error, Result, ok, err, Tables, Call, World, Env, Config, M, ◌>>=◌, step}
use ganji.Deals.Repository
use ganji.Deals.Repository.Guarded.{committed}
use ganji.Deals.Repository.{tx, statement, transaction}
use ganji.Deals.Contract.{
  Post, Contract, Contract-bind, Contract-lift, Contract-try, Contract-pure, Contract-raise,
}
use ganji.Deals.Contract.Free.{Any, free}
use ganji.Deals.Escrow.{answer, lnbits_create_hold, cancel_orphan_hold, lnbits_cancel}
use ganji.Deals.Lifecycle.{
  random, generate_share_token, normalise, validate, persist_deal, create_deal,
}

abbrev HoldKept : Text → List Call → Result Deal × World → Type 0
HoldKept hash calls (ok d, w) = w.calls ≡ calls
HoldKept hash calls (err e, w) = w.calls ≡ Call.cancel hash ∷ calls

-- A row of the deal that was returned, with its payment hash.
abbrev is_row : Deal → Deal → Bool
is_row d x = text_eq x.id d.id && text_eq x.preimage_hash d.preimage_hash

-- What creating a deal asked of LNbits: one hold invoice for the payment hash of the deal that is
-- returned, which the tables have a row of; on an error nothing, or one that was answered with an
-- error, or one that was cancelled.
abbrev pub HoldAccounted : Env → List Call → Result Deal × World → Type 0
HoldAccounted env calls (ok d, w) =
    (req : CreateHoldInvoiceRequest) × (w.calls ≡ Call.create_hold req ∷ calls)
    × (req.payment_hash ≡ d.preimage_hash)
    × (any (is_row d) w.tables.deals ≡ true)
HoldAccounted env calls (err e, w) =
    (w.calls ≡ calls)
    ⊎ ((req : CreateHoldInvoiceRequest) × (t : ℕ) × (w.calls ≡ Call.create_hold req ∷ calls)
        × (answer (Lnbits.create_hold_invoice (env.hold_reply t)) ≡ err e)
        × (w.tick ≡ suc t))
    ⊎ ((req : CreateHoldInvoiceRequest) × (w.calls
          ≡ Call.cancel req.payment_hash ∷ Call.create_hold req ∷ calls))

any-last :
    (q : Deal → Bool) (xs : List Deal) (x : Deal) → q x ≡ true → any q (xs ++ (x ∷ [])) ≡ true
any-last q [] x h = ground arith
any-last q (y ∷ ys) x h = ground (arith, any-last q ys x h)

module _ (env : Env) (cfg : Config) where
  persist-HoldKept :
      (deal : Deal) (w : World) → HoldKept deal.preimage_hash w.calls (persist_deal env cfg deal w)
  unfolding persist_deal ◌>>=◌ transaction Repository.create_deal statement cancel_orphan_hold
      lnbits_cancel
  persist-HoldKept deal w = ground arith

  persist-hash :
      (deal d : Deal) (w : World)
      → (persist_deal env cfg deal w).0 ≡ ok d
      → d.preimage_hash ≡ deal.preimage_hash
  unfolding persist_deal ◌>>=◌ transaction Repository.create_deal statement
  persist-hash deal d w e = ground arith

  -- What the body of a transaction says of its result and of the tables is so after the COMMIT.
  module _ {A : Type 0} (Q : A → World → Type 0) (before : Tables)
      (kept : (a : A) (w : World) → Q a w → Q a (record w { tick = suc w.tick })) where
    committed-Post :
        (o : Result A × World) → Post Q (λ _. Any) o → Post Q (λ _. Any) (committed env before o)
    committed-Post (err e, w) h = tt
    committed-Post (ok a, w) h = elim (Bool-cases (env.db_fails w.tick)) [
      | inl e ↦ rw e tt
      | inr e ↦ rw e (kept a w h)
    ]

  abbrev Stored : Deal → World → Type 0
  Stored d w = any (is_row d) w.tables.deals ≡ true

  create-Stored :
      (deal : Deal) (w : World) → Post Stored (λ _. Any) (Repository.create_deal env tx deal w)
  unfolding Repository.create_deal statement
  create-Stored deal w = elim (Bool-cases (env.db_fails w.tick)) [
    | inl e ↦ rw e tt
    | inr e ↦ rw e (any-last _ w.tables.deals _ (ground arith))
  ]

  transaction-Stored :
      (deal : Deal)
      → Contract Any (transaction env (Repository.create_deal env tx deal)) Stored (λ _. Any)
  unfolding transaction
  transaction-Stored deal = record {
    at = λ w h. elim (Bool-cases (env.db_fails w.tick)) [
      | inl e ↦ rw e tt
      | inr e ↦
          rw e (
            committed-Post Stored (env.others w.tick w.tables) stored_later _
              (create-Stored deal _))
    ];
  }
    where
      stored_later : (d : Deal) (w : World) → Stored d w → Stored d (record w { tick = suc w.tick })
      stored_later d w h = h

  persist-Stored : (deal : Deal) → Contract Any (persist_deal env cfg deal) Stored (λ _. Any)
  unfolding persist_deal
  persist-Stored deal =
      Contract-try Stored (λ _. Any) _ (transaction-Stored deal) (λ d. Contract-pure d (λ w h. h))
        (λ e. Contract-bind (λ _. Any) (free _) (λ _. Contract-raise e (λ w h. tt)))

  module _ (calls : List Call) where
    abbrev Before : World → Type 0
    Before w = w.calls ≡ calls

    abbrev Drawn : Text → World → Type 0
    Drawn hash w =
        (req : CreateHoldInvoiceRequest) × (w.calls ≡ Call.create_hold req ∷ calls)
        × (req.payment_hash ≡ hash)

    abbrev Ok : Deal → World → Type 0
    Ok d w = HoldAccounted env calls (ok d, w)

    abbrev Err : Error → World → Type 0
    Err e w = HoldAccounted env calls (err e, w)

    persist-Contract :
        (deal : Deal) → Contract (Drawn deal.preimage_hash) (persist_deal env cfg deal) Ok Err
    persist-Contract deal = record {
      at = λ w h.
          go w h _ (persist-HoldKept deal w) (λ d. persist-hash deal d w)
            ((persist-Stored deal).at w tt);
    }
      where
        go :
            (w : World)
            → Drawn deal.preimage_hash w
            → (o : Result Deal × World) → HoldKept deal.preimage_hash w.calls o
            → ((d : Deal) → o.0 ≡ ok d → d.preimage_hash ≡ deal.preimage_hash)
            → Post Stored (λ _. Any) o
            → Post Ok Err o
        go w (req, drawn, same) (ok d, w') kept hash row =
            (req, (kept ∙ drawn), (same ∙ sym (hash d refl)), row)
        go w (req, drawn, same) (err e, w') kept hash row = inr (inr (req, cc (kept, drawn, same)))

    step_calls : (w : World) → (step w).1.calls ≡ w.calls
    unfolding step
    step_calls w = refl

    random_calls : (source : ℕ → Option Text) (w : World) → (random env source w).1.calls ≡ w.calls
    unfolding ◌>>=◌
    random_calls source w = ground arith

    token_calls : (w : World) → (generate_share_token env w).1.calls ≡ w.calls
    unfolding generate_share_token ◌>>=◌
    token_calls w = ground arith

    silent :
        {A : Type 0} (m : M A)
        → ((w : World) → (m w).1.calls ≡ w.calls)
        → Contract Before m (λ _. Before) Err
    silent {A} m same = record { at = λ w h. go w h (m w) (same w) }
      where
        go :
            (w : World)
            → Before w
            → (o : Result A × World) → o.1.calls ≡ w.calls
            → Post (λ _. Before) Err o
        go w h (ok a, w') e = e ∙ h
        go w h (err x, w') e = inl (e ∙ h)

    hold_hash :
        (c : Lnbits.Config) (req : CreateHoldInvoiceRequest)
        → (Lnbits.hold_request c req).payment_hash ≡ req.payment_hash
    unfolding Lnbits.hold_request
    hold_hash c req = refl

    draw-Contract :
        (req : CreateHoldInvoiceRequest)
        → Contract Before (lnbits_create_hold env cfg.client req) (λ _. Drawn req.payment_hash) Err
    unfolding lnbits_create_hold ◌>>=◌
    draw-Contract req = record {
      at = λ w h. go w h (answer (Lnbits.create_hold_invoice (env.hold_reply w.tick))) refl;
    }
      where
        go :
            (w : World)
            → Before w
            → (r : Result Lnbits.Invoice)
            → answer (Lnbits.create_hold_invoice (env.hold_reply w.tick)) ≡ r
            → Post
                (λ _. Drawn req.payment_hash)
                Err
                (
                  r,
                  record w {
                    tick = suc w.tick;
                    calls = Call.create_hold (Lnbits.hold_request cfg.client req) ∷ w.calls;
                  },
                )
        go w h (ok a) e = (Lnbits.hold_request cfg.client req, rw h refl, hold_hash cfg.client req)
        go w h (err x) e =
            inr (inl (Lnbits.hold_request cfg.client req, w.tick, rw h refl, e, refl))

    create-Contract : (given : Deal) → Contract Before (create_deal env cfg given) Ok Err
    unfolding create_deal
    create-Contract given =
        Contract-lift (validate env (normalise env given)) _ (λ e w h _. inl h)
          λ _ _.
            Contract-bind (λ _. Before) (silent _ (random_calls env.random_hex))
              λ preimage.
                Contract-bind (λ _. Before) (silent _ token_calls)
                  λ token.
                    Contract-bind (λ _. Drawn (env.sha256 preimage)) (draw-Contract _)
                      λ hold. persist-Contract _

    account : (o : Result Deal × World) → Post Ok Err o → HoldAccounted env calls o
    account (ok d, w) h = h
    account (err e, w) h = h

  -- Creating a deal asks LNbits for one hold invoice at most. The deal that it returns has the payment
  -- hash of that hold and a row in the tables, of its id and with that hash. On an error nothing was asked
  -- for, or the request for the hold was itself answered with that error (which a timeout is too, so that
  -- LNbits may have drawn it: it is not cancelled then), or the last call cancels the hold.
  pub create_deal_no_orphan_hold :
      (given : Deal) (w : World) → HoldAccounted env w.calls (create_deal env cfg given w)
  create_deal_no_orphan_hold given w = account w.calls _ ((create-Contract w.calls given).at w refl)
