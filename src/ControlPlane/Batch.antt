-- ===== src/ControlPlane/Batch.antt =====
-- What `batch_update_clients` of app/api/control_plane.py comes to.
use firecrawl_manger.Prelude.{
  ℕ, suc, ◌+◌, ◌≡◌, refl, ap, sym, ◌∙◌, Bool, not, Option, none, some, List, [], ◌∷◌, arith, inl,
  inr, filter, Bool-cases, Option-cases, is_some, length, ◌==◌, nat_equality, if◌then◌else◌,
}
use mathlib.Core.Option as Option
use firecrawl_manger.Errors.{ok}
use firecrawl_manger.Models.{Client}
use firecrawl_manger.ResourceBinding.{accepts}
use firecrawl_manger.ControlPlane.{Db, audit, commit, find_client, set_client}
use firecrawl_manger.ControlPlane.Ids.{
  is_named, AllDifferent, deduplicate-in, deduplicate-AllDifferent,
}
use firecrawl_manger.ControlPlane.Clients.{
  BatchAction, enable, disable, delete, BatchClientResponse, apply_batch_action_to_client,
  batch_rounds, batch_update_clients, deduplicate_client_ids, action_name,
}

-- What the rows are to be afterwards, seen from one id.
abbrev pub wanted : BatchAction → List ℕ → ℕ → Option Client → Option Client
wanted action ids id row =
    if is_named id ids then Option.map (apply_batch_action_to_client action) row else row

find_client-id :
    (id : ℕ) (client : Client) (clients : List Client)
    → find_client id clients ≡ some client
    → client.id ≡ id
find_client-id id client [] h = absurd (ground arith)
find_client-id id client (c ∷ clients) h = elim (Bool-cases (c.id == id)) [
  | inl same ↦ ground (arith, rw same at h)
  | inr other ↦ find_client-id id client clients (rw other at h)
]

find_client-set_client :
    (id : ℕ) (client : Client) (clients : List Client)
    → find_client id (set_client client clients) ≡ (
        if client.id == id
        then Option.map (λ c. client) (find_client id clients)
        else find_client id clients)
find_client-set_client id client [] = ground arith
find_client-set_client id client (c ∷ clients) =
    ground (arith, find_client-set_client id client clients)

apply-id : (action : BatchAction) (c : Client) → (apply_batch_action_to_client action c).id ≡ c.id
unfolding apply_batch_action_to_client
apply-id enable c = refl
apply-id disable c = refl
apply-id delete c = refl

apply-apply :
    (action : BatchAction) (c : Client)
    → apply_batch_action_to_client action (apply_batch_action_to_client action c)
      ≡ apply_batch_action_to_client action c
unfolding apply_batch_action_to_client
apply-apply enable c = refl
apply-apply disable c = refl
apply-apply delete c = refl

-- One row is changed: the ids that are left want the same of it again.
wanted_more :
    (action : BatchAction) (id q : ℕ) (ids : List ℕ) (client : Client) (clients : List Client)
    → find_client id clients ≡ some client
    → wanted action ids q
        (find_client q (set_client (apply_batch_action_to_client action client) clients))
      ≡ wanted action (id ∷ ids) q (find_client q clients)
unfolding apply_batch_action_to_client
wanted_more action id q ids client clients there =
    let named : (apply_batch_action_to_client action client).id ≡ id =
      apply-id action client ∙ find_client-id id client clients there in
    let changed = find_client-set_client q (apply_batch_action_to_client action client) clients in
    elim (Bool-cases (id == q)) [
      | inr other ↦ rw (changed, named, other) refl
      | inl same ↦
          let found : find_client q clients ≡ some client =
            ap (λ i. find_client i clients) (sym ((nat_equality.test_iff id q).0 same)) ∙ there in
          elim (Bool-cases (is_named q ids)) [
            | inl again ↦ rw (changed, named, same, found, again, apply-apply action client) refl
            | inr once ↦ rw (changed, named, same, found, once) refl
          ]
    ]

wanted_absent :
    (action : BatchAction) (id q : ℕ) (ids : List ℕ) (clients : List Client)
    → find_client id clients ≡ none
    → wanted action ids q (find_client q clients)
      ≡ wanted action (id ∷ ids) q (find_client q clients)
wanted_absent action id q ids clients gone = elim (Bool-cases (id == q)) [
  | inr other ↦ rw other refl
  | inl same ↦
      let absent : find_client q clients ≡ none =
        ap (λ i. find_client i clients) (sym ((nat_equality.test_iff id q).0 same)) ∙ gone in
      elim (Bool-cases (is_named q ids)) [
        | inl again ↦ rw (same, absent, again) refl
        | inr once ↦ rw (same, absent, once) refl
      ]
]

batch_rounds-rows :
    (action : BatchAction) (ids : List ℕ) (good : ℕ) (bad : List ℕ) (db : Db) (q : ℕ)
    → find_client q (batch_rounds action ids good bad db).1.clients
      ≡ wanted action ids q (find_client q db.clients)
unfolding batch_rounds
batch_rounds-rows action [] good bad db q = refl
batch_rounds-rows action (id ∷ ids) good bad db q =
    elim (Option-cases (find_client id db.clients)) [
      | inr (client, there) ↦
          rw (batch_rounds, there)
            (batch_rounds-rows action ids (good + 1) bad
                (audit (action_name action) (some id) (record db {
                  clients = set_client (apply_batch_action_to_client action client) db.clients;
                }))
                q
              ∙ wanted_more action id q ids client db.clients there)
      | inl gone ↦
          rw (batch_rounds, gone)
            (batch_rounds-rows action ids good bad db q
              ∙ wanted_absent action id q ids db.clients gone)
    ]

abbrev pub is_there : Db → ℕ → Bool
is_there db id = is_some (find_client id db.clients)

same_there :
    (client : Client) (db : Db) (id : ℕ)
    → is_some (find_client id (set_client client db.clients)) ≡ is_there db id
same_there client db id = elim (Bool-cases (client.id == id)) [
  | inr other ↦ rw (find_client-set_client id client db.clients, other) refl
  | inl same ↦ elim (Option-cases (find_client id db.clients)) [
    | inl gone ↦ rw (find_client-set_client id client db.clients, same, gone) refl
    | inr (row, there) ↦ rw (find_client-set_client id client db.clients, same, there) refl
  ]
]

one_more : (good : ℕ) {m n : ℕ} → m ≡ n → (good + 1) + m ≡ good + suc n
one_more good e = omega arith

batch_rounds-counts :
    (action : BatchAction) (ids : List ℕ) (good : ℕ) (bad : List ℕ) (db : Db)
    → (batch_rounds action ids good bad db).0 ≡ record {
      success_count = good + length (filter (is_there db) ids);
      failed_count = length bad;
      failed_ids = bad;
    }
unfolding batch_rounds
batch_rounds-counts action [] good bad db =
    ap (λ n. record { success_count = n; failed_count = length bad; failed_ids = bad })
      (omega arith)
batch_rounds-counts action (id ∷ ids) good bad db =
    elim (Option-cases (find_client id db.clients)) [
      | inl gone ↦ rw (batch_rounds, gone) (batch_rounds-counts action ids good bad db)
      | inr (client, there) ↦
          let client' = apply_batch_action_to_client action client in
          let db1 : Db =
            audit (action_name action) (some id)
              (record db { clients = set_client client' db.clients }) in
          let same : length (filter (is_there db1) ids) ≡ length (filter (is_there db) ids) =
            ap (λ p. length (filter p ids)) (λ i x. same_there client' db x i) in
          rw (batch_rounds, there)
            (batch_rounds-counts action ids (good + 1) bad db1
              ∙ ap (λ n. record { success_count = n; failed_count = length bad; failed_ids = bad })
                  (one_more good same))
    ]

partition-length :
    (p : ℕ → Bool) (ids : List ℕ)
    → length (filter p ids) + length (filter (λ i. not (p i)) ids) ≡ length ids
partition-length p [] = refl
partition-length p (i ∷ ids) = elim (Bool-cases (p i)) [
  | inl passes ↦ rw passes (omega (arith, partition-length p ids))
  | inr fails ↦ rw fails (omega (arith, partition-length p ids))
]

-- A batch that is committed does to each client with one of the ids what the action says, to the
-- others nothing, in whatever order and however often the ids are given; its counts are those of the
-- different ids that have a client and that have none, and add up to their number.
pub batch_update_clients-wanted :
    (action : BatchAction) (client_ids : List ℕ) (db : Db)
    → let (result, db') = batch_update_clients action accepts client_ids db in
      ((ids : List ℕ) × (response : BatchClientResponse) × (result ≡ ok response)
        × AllDifferent ids
        × ((q : ℕ) → is_named q ids ≡ is_named q client_ids)
        × (response.success_count ≡ length (filter (is_there db) ids))
        × (response.failed_ids ≡ filter (λ id. not (is_there db id)) ids)
        × (response.success_count + response.failed_count ≡ length ids))
      × ((q : ℕ)
          → find_client q db'.clients ≡ wanted action client_ids q (find_client q db.clients))
unfolding batch_update_clients commit
batch_update_clients-wanted action client_ids db =
    let ids = deduplicate_client_ids client_ids in
    let bad = filter (λ id. not (is_there db id)) ids in
    let counts = batch_rounds-counts action ids 0 bad db in
    let good = ap (λ r. r.success_count) counts in
    (
      (
        ids,
        (batch_rounds action ids 0 bad db).0,
        refl,
        deduplicate-AllDifferent client_ids,
        λ q. deduplicate-in q client_ids,
        good ∙ omega arith,
        ap (λ r. r.failed_ids) counts,
        omega (arith, good, ap (λ r. r.failed_count) counts, partition-length (is_there db) ids),
      ),
      λ q.
          batch_rounds-rows action ids 0 bad db q
          ∙ ap
              (λ b.
                if b
                then Option.map (apply_batch_action_to_client action) (find_client q db.clients)
                else find_client q db.clients)
              (deduplicate-in q client_ids),
    )
