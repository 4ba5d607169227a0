-- ===== src/Deals/Lifecycle/Lists.antt =====
-- `ListByUser` of deals/service.go: which deals it lists, and in which order.
use ganji.Base.{◌≡◌, ◌∙◌, inl, inr, Bool, ◌&&◌, ◌||◌, List, filter, Text, text_eq, Bool-cases}
use ganji.Deals.Types.{Deal}
use ganji.Deals.World.{World, Env, Config}
use ganji.Deals.Contract.{Post, Contract, Contract-raise_if}
use ganji.Deals.Contract.Free.{Any}
use ganji.Deals.Repository
use ganji.Deals.Repository.{pool, order_by, newest_first}
use ganji.Deals.Repository.Sorted.{
  IsOrdered, occurrences, occurrences-filter, order_by-newest_first,
}
use ganji.Deals.Lifecycle.{list_by_user}

module _ (env : Env) (cfg : Config) (user email : Text) where
  abbrev is_listed : Deal → Bool
  is_listed d = text_eq d.freelancer_id user || text_eq d.client_email email

  select-Lists :
      (p : Deal → Bool)
      → Contract Any
          (Repository.list_for_user env pool user email)
          (λ ds after.
            IsOrdered newest_first ds
            × (occurrences p ds ≡ occurrences (λ d. p d && is_listed d) after.tables.deals))
          (λ _. Any)
  unfolding Repository.list_for_user
  select-Lists p = record {
    at = λ w h. elim (Bool-cases (env.db_fails w.tick)) [
      | inl e ↦ rw e tt
      | inr e ↦
          let rows : List Deal = filter is_listed (env.others w.tick w.tables).deals in
          let sorted = order_by-newest_first rows p in
          rw e
            (sorted.0, sorted.1 ∙ occurrences-filter p is_listed (env.others w.tick w.tables).deals)
    ];
  }

  -- A list of a caller's deals that succeeds is one of the tables that the SELECT saw: the newest deal
  -- comes first, and each kind of row occurs as often as among the rows that have the caller as
  -- freelancer or as client, so that no deal of the caller's is left out or listed twice and none of
  -- anyone else's is listed.
  pub list_by_user_complete :
      (p : Deal → Bool) (w : World)
      → Post
          (λ ds after.
            IsOrdered newest_first ds
            × (occurrences p ds
                ≡ occurrences
                    (λ d. p d && (text_eq d.freelancer_id user || text_eq d.client_email email))
                    after.tables.deals))
          (λ _ _. Unit {0})
          (list_by_user env cfg user email w)
  unfolding list_by_user
  list_by_user_complete p w = listed.at w tt
    where
      listed :
          Contract Any
            (list_by_user env cfg user email)
            (λ ds after.
              IsOrdered newest_first ds
              × (occurrences p ds ≡ occurrences (λ d. p d && is_listed d) after.tables.deals))
            (λ _. Any)
      listed = Contract-raise_if _ _ _ (λ w h _. tt) λ _. select-Lists p
