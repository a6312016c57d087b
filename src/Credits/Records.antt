-- ===== src/Credits/Records.antt =====
-- What a call of `fetch_credit_from_firecrawl` in app/core/credit_fetcher.py leaves in the database.
use firecrawl_manger.Prelude.{
  ◌⊎◌, ◌&&◌, ℕ, ◌≡◌, refl, ==-refl, sym, subst, ap, if◌then◌else◌, Bool, true, false, some, [], ◌∷◌,
  ◌++◌, arith, inl, inr, Bool-cases, ◌||◌, ◌==◌, nat_equality,
}
use firecrawl_manger.Models.{ApiKey, failed, decrypt_failed, cooling}
use firecrawl_manger.Errors.{FcamError, error, decryption_failed, database_unavailable}
use firecrawl_manger.Forwarder.{set_key}
use firecrawl_manger.Forwarder.Keys.{find_key, find_key-set_key}
use firecrawl_manger.Credits.{CreditMonitoring, CreditSnapshot}
use firecrawl_manger.Credits.Fetch.{
  CreditCall, DbSession, Fetched, CreditReply, CreditBody, timed_out, unreachable, response,
  not_json, not_an_object, unsuccessful, not_numbers, credits, raises, returns, unexpected, save,
  fail, snapshot_of, store_credits, with_credits, note_check, off, on_body, on_reply,
  fetch_credit_from_firecrawl,
}

-- The upstream said how many credits there are, and its answer is on record: in a new snapshot, in the
-- columns of the key, and in those of its last check.
pub record Stored (c : CreditMonitoring) (next_month : ℕ → ℕ) (f : CreditCall) (key : ApiKey)
    (s s' : DbSession) (snapshot : CreditSnapshot) : Type 0 where
  pub readable : f.decrypted ≡ true
  pub reply : f.reply ≡ response 200 (credits snapshot.remaining_credits snapshot.plan_credits)
  pub success : snapshot.fetch_success ≡ true
  pub owner : snapshot.api_key_id ≡ key.id
  pub current : s'.rows ≡ s'.committed
  pub kept : s'.committed.snapshots ≡ s.rows.snapshots ++ snapshot ∷ []
  pub checked : s'.committed.checks key.id ≡ some (snapshot.id, f.now)
  pub row :
      find_key key.id s'.committed.keys
      ≡ some (with_credits c next_month f key snapshot.remaining_credits snapshot.plan_credits)

abbrev pub Recorded :
    CreditMonitoring → (ℕ → ℕ) → CreditCall → ApiKey → DbSession → Fetched × DbSession → Type 0
Recorded c next_month f key s (returns snapshot, s') = Stored c next_month f key s s' snapshot
Recorded c next_month f key s (raises e, s') =
    (f.commit_ok ≡ true
      → ((s'.committed.snapshots ≡ s.rows.snapshots ++ snapshot_of f key false 0 0 ∷ [])
          × (s'.committed.checks ≡ s.rows.checks))
        ⊎ ((f.refresh_ok ≡ false)
            × (e ≡ database_unavailable)
            × ((snapshot : CreditSnapshot) × Stored c next_month f key s s' snapshot)))
    × (f.commit_ok ≡ false → s'.committed ≡ s.committed)
Recorded c next_month f key s (unexpected, s') = s' ≡ s

module _ (c : CreditMonitoring) (next_month : ℕ → ℕ) (f : CreditCall) (key : ApiKey) (s : DbSession)
    (here : find_key key.id s.rows.keys ≡ some key) where
  fail-Recorded :
      (key' : ApiKey) (e : FcamError)
      → key'.id ≡ key.id
      → Recorded c next_month f key s (fail f key' e s)
  fail-Recorded key' e same = (
    (λ done. rw done (
        inl (
          ap
              (λ id.
                s.rows.snapshots ++ record (snapshot_of f key false 0 0) { api_key_id = id } ∷ [])
              same,
          refl,
        ))),
    λ lost. rw lost refl,
  )

  store-Recorded :
      (remaining plan : ℕ)
      → f.decrypted ≡ true
      → f.reply ≡ response 200 (credits remaining plan)
      → Recorded c next_month f key s (store_credits c next_month f key remaining plan s)
  store-Recorded remaining plan readable reply =
      let row = with_credits c next_month f key remaining plan in
      let stored_as : Bool → Bool → Fetched × DbSession = λ done reread. (
        (if done && reread
            then returns (snapshot_of f key true remaining plan)
            else raises database_unavailable),
        save done
            (record {
              keys = set_key row s.rows.keys;
              snapshots = s.rows.snapshots ++ snapshot_of f key true remaining plan ∷ [];
              checks = note_check key.id (f.new_id, f.now) s.rows.checks;
            })
            s,
      ) in
      let stored : Stored c next_month f key s (stored_as true true).1
          (snapshot_of f key true remaining plan) =
        record {
          readable = readable;
          reply = reply;
          success = refl;
          owner = refl;
          current = refl;
          kept = refl;
          checked = rw (==-refl key.id) refl;
          row = find_key-set_key key.id row key s.rows.keys refl here;
        } in
      let at : Bool → Bool → Type 0 =
        λ done reread. Recorded c next_month f key s (stored_as done reread) in
      elim (Bool-cases f.commit_ok) [
        | inr lost ↦ subst (λ b. at b f.refresh_ok) (sym lost) ((λ done. cc), λ _. refl)
        | inl done ↦
            subst (λ b. at b f.refresh_ok) (sym done)
              (elim (Bool-cases f.refresh_ok) [
                | inl reread ↦ subst (at true) (sym reread) stored
                | inr unread ↦ subst (at true) (sym unread) (
                  (λ _. inr (unread, refl, (snapshot_of f key true remaining plan, stored))),
                  λ lost. cc,
                )
              ])
      ]

  on_body-Recorded :
      (body : CreditBody)
      → f.decrypted ≡ true
      → f.reply ≡ response 200 body
      → Recorded c next_month f key s (on_body c next_month f key body s)
  on_body-Recorded not_json readable reply = fail-Recorded key _ refl
  on_body-Recorded not_an_object readable reply = refl
  on_body-Recorded unsuccessful readable reply = fail-Recorded key _ refl
  on_body-Recorded not_numbers readable reply = refl
  on_body-Recorded (credits remaining plan) readable reply =
      store-Recorded remaining plan readable reply

  on_reply-Recorded :
      (reply : CreditReply)
      → f.decrypted ≡ true
      → f.reply ≡ reply
      → Recorded c next_month f key s (on_reply c next_month f key reply s)
  on_reply-Recorded timed_out readable e = fail-Recorded key _ refl
  on_reply-Recorded unreachable readable e = refl
  on_reply-Recorded (response code body) readable e = elim (Bool-cases (code == 200)) [
    | inl success ↦ rw success (on_body-Recorded body readable (ground arith))
    | inr e0 ↦ elim (Bool-cases (code == 401 || code == 403)) [
      | inl refused ↦ rw (e0, refused) (fail-Recorded (off failed key) _ refl)
      | inr e1 ↦ elim (Bool-cases (code == 429)) [
        | inl limited ↦
            rw (e0, e1, limited)
              (fail-Recorded (record key { status = cooling; cooldown_until = some f.now }) _ refl)
        | inr e2 ↦ rw (e0, e1, e2) (fail-Recorded key _ refl)
      ]
    ]
  ]

  pub fetch_credit_records :
      Recorded c next_month f key s (fetch_credit_from_firecrawl c next_month f key s)
  unfolding fetch_credit_from_firecrawl
  fetch_credit_records =
      let read : Bool → Fetched × DbSession = λ readable.
        if readable
        then on_reply c next_month f key f.reply s
        else fail f (off decrypt_failed key)
            (error 500 decryption_failed "Failed to decrypt API key") s in
      elim (Bool-cases f.decrypted) [
        | inl readable ↦
            subst (λ b. Recorded c next_month f key s (read b)) (sym readable)
              (on_reply-Recorded f.reply readable refl)
        | inr unreadable ↦
            subst (λ b. Recorded c next_month f key s (read b)) (sym unreadable)
              (fail-Recorded (off decrypt_failed key) _ refl)
      ]
