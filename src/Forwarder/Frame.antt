-- ===== src/Forwarder/Frame.antt =====
-- What the changes to a key in app/core/forwarder.py leave alone: the calls of the upstream, and the
-- semaphores of the keys.
use firecrawl_manger.Prelude.{ℕ, ◌≡◌, arith, Option-cases, inl, inr}
use firecrawl_manger.Models.{ApiKey}
use firecrawl_manger.Forwarder.{
  Settings, Try, World, Response, commit, disable_key_decrypt_failed, disable_key, mark_cooling,
  record_failure, consume_quota_on_success, estimate, set_key,
}
use firecrawl_manger.Forwarder.Answer.{Request, account}

abbrev pub Same : World → World → Type 0
Same w w' = (w'.requests ≡ w.requests) × (w'.states ≡ w.states)

pub disable_key_decrypt_failed-Same :
    (t : Try) (key : ApiKey) (w : World) → Same w (disable_key_decrypt_failed t key w)
unfolding disable_key_decrypt_failed
disable_key_decrypt_failed-Same t key w = (ground arith, ground arith)

pub disable_key-Same : (t : Try) (key : ApiKey) (w : World) → Same w (disable_key t key w)
unfolding disable_key
disable_key-Same t key w = (ground arith, ground arith)

pub mark_cooling-Same :
    (t : Try) (key : ApiKey) (c : ℕ) (w : World) → Same w (mark_cooling t key c w)
unfolding mark_cooling
mark_cooling-Same t key c w = (ground arith, ground arith)

pub record_failure-Same :
    (s : Settings) (t : Try) (key : ApiKey) (w : World) → Same w (record_failure s t key w)
unfolding record_failure
record_failure-Same s t key w = (ground arith, ground arith)

consume_quota-Same :
    (t : Try) (key : ApiKey) (w : World) → Same w (consume_quota_on_success t key w).1
unfolding consume_quota_on_success
consume_quota-Same t key w = (ground arith, ground arith)

commit-Same : (t : Try) (w : World) → Same w (commit t w).1
unfolding commit
commit-Same t w = (ground arith, ground arith)

pub account-Same :
    (r : Request) (t : Try) (key : ApiKey) (resp : Response) (w : World)
    → Same w (account r t key resp w).1
unfolding account
account-Same r t key resp w =
    elim (Option-cases (estimate r.settings r.is_get r.upstream_path resp key)) [
      | inl e ↦ grind (arith, consume_quota-Same t key w)
      | inr (key', e) ↦ grind (
        arith,
        consume_quota-Same t key' w,
        commit-Same t (record w { keys = set_key key' w.keys }),
      )
    ]
