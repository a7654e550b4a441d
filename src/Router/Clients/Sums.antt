-- ===== src/Router/Clients/Sums.antt =====
-- The sums over the clients of a snapshot.
use homelink_monitor.Base.{
  ◌≡◌, refl, true, Option, none, some, List, [], ◌∷◌, Option-cases, inl, inr, Floats,
}
use homelink_monitor.Domain.{RouterTrafficClient}
use homelink_monitor.Router.Clients.{sum_from, sum_clients}

module _ {F : Type 0} where
  -- The values that are there, in the order of the clients.
  abbrev pub values_of : (RouterTrafficClient F → Option F) → List (RouterTrafficClient F) → List F
  values_of pick [] = []
  values_of pick (c ∷ clients) = elim (pick c) [
    | none ↦ values_of pick clients
    | some v ↦ v ∷ values_of pick clients
  ]

module _ {F : Type 0} (fl : Floats F) where
  -- Added from the left, as float64 addition is not associative.
  abbrev pub added : F → List F → F
  added total [] = total
  added total (v ∷ values) = added (fl.plus total v) values

  abbrev pub total_of : List F → Option F
  total_of [] = none
  total_of (v ∷ values) = some (added (fl.of_nat 0) (v ∷ values))

  sum_from-added :
      (pick : RouterTrafficClient F → Option F) (total : F) (clients : List (RouterTrafficClient F))
      → sum_from fl pick total true clients ≡ some (added total (values_of pick clients))
  unfolding sum_from
  sum_from-added pick total [] = refl
  sum_from-added pick total (c ∷ clients) = elim (Option-cases (pick c)) [
    | inl nothing ↦ rw (nothing, sum_from, values_of) (sum_from-added pick total clients)
    | inr (v, e) ↦ rw (e, sum_from, values_of) (sum_from-added pick (fl.plus total v) clients)
  ]

  -- `sumClients` is the sum from 0 of the values that are there, in the order of the clients, and
  -- nil exactly if there is none.
  pub sum_clients_lem :
      (pick : RouterTrafficClient F → Option F) (clients : List (RouterTrafficClient F))
      → sum_clients fl pick clients ≡ total_of (values_of pick clients)
  unfolding sum_clients sum_from
  sum_clients_lem pick [] = refl
  sum_clients_lem pick (c ∷ clients) = elim (Option-cases (pick c)) [
    | inl nothing ↦ rw (nothing, sum_from, values_of) (sum_clients_lem pick clients)
    | inr (v, e) ↦
        rw (e, sum_from, values_of, total_of)
          (sum_from-added pick (fl.plus (fl.of_nat 0) v) clients)
  ]
