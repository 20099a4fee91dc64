-- ===== src/Middleware/Decision.antt =====
-- The four ways in which ntc_mw_before of src/core/middleware.c ends.
use naitron_c.Prelude.{ℕ, ◌%◌, Bool, true, false, [], Bytes, ◌≡◌, ◌≢◌, ℤ, pos, ltb_int}
use naitron_c.Middleware.Keeps.{Keeps}
use naitron_c.Middleware.Gate.{IsAuthorized}
use naitron_c.Middleware.Headers.{MwConfig}
use naitron_c.Middleware.Bucket.{bucket_allow, hash_str, Bucket, Double}
use naitron_c.Middleware.Before.{
  burst_of, rl_buckets, Mw, MwResult, Checks, preflight, is_protected,
}
use naitron_c.Http.{Request}

module _ (d : Double) {N : Type 0} (k : Checks N) where
  open d use {D, of_int}

  -- The place of an address, and its bucket after the call with the answer.
  abbrev pub place : Bytes → ℕ
  place ip = hash_str ip % rl_buckets

  abbrev pub spent : MwConfig → (ℕ → Bucket D) → Bytes → ℤ → Bucket D × Bool
  spent cfg buckets ip now_ms =
      bucket_allow d (buckets (place ip)) now_ms (of_int cfg.rate_per_sec) (of_int (burst_of d cfg))

  -- The bucket of the address has a token.
  abbrev pub has_token : MwConfig → (ℕ → Bucket D) → Bytes → ℤ → Bool
  has_token cfg buckets ip now_ms = (spent cfg buckets ip now_ms).1

  -- With a rate limit the bucket of the address is charged, and no other bucket changes.
  abbrev pub Charged : MwConfig → (ℕ → Bucket D) → Bytes → ℤ → (ℕ → Bucket D) → Type 0
  Charged cfg buckets ip now_ms buckets' =
      (ltb_int (pos 0) cfg.rate_per_sec ≡ true
        → buckets' (place ip) ≡ (spent cfg buckets ip now_ms).0)
      × (ltb_int (pos 0) cfg.rate_per_sec ≡ false → buckets' (place ip) ≡ buckets (place ip))
      × ((j : ℕ) → j ≢ place ip → buckets' j ≡ buckets j)

  -- How the state `m` and the request lead to the state `m'` and the result `r`.
  pub data Decision (m : Mw D) (req : Request) (ip : Bytes) (now_ms : ℤ) (pre_authed : Bool)
      (now : ℤ) (m' : Mw D) (r : MwResult) : Type 0 where
    answered :
        preflight m.cfg req ≡ true
        → m' ≡ m
        → r.short_circuit ≡ true
        → r.status ≡ 204
        → Decision m req ip now_ms pre_authed now m' r
    refused :
        preflight m.cfg req ≡ false
        → is_protected m.cfg pre_authed req ≡ true
        → ((x : MwResult) → ¬ IsAuthorized k m' now req x)
        → Keeps m m'
        → r.short_circuit ≡ true
        → r.status ≡ 401
        → r.auth_sub ≡ []
        → Decision m req ip now_ms pre_authed now m' r
    limited :
        preflight m.cfg req ≡ false
        → (is_protected m.cfg pre_authed req ≡ true → IsAuthorized k m' now req r)
        → ltb_int (pos 0) m.cfg.rate_per_sec ≡ true
        → has_token m.cfg m.buckets ip now_ms ≡ false
        → Charged m.cfg m.buckets ip now_ms m'.buckets
        → r.short_circuit ≡ true
        → r.status ≡ 429
        → Decision m req ip now_ms pre_authed now m' r
    passed :
        preflight m.cfg req ≡ false
        → (is_protected m.cfg pre_authed req ≡ true → IsAuthorized k m' now req r)
        → (ltb_int (pos 0) m.cfg.rate_per_sec ≡ true → has_token m.cfg m.buckets ip now_ms ≡ true)
        → Charged m.cfg m.buckets ip now_ms m'.buckets
        → r.short_circuit ≡ false
        → Decision m req ip now_ms pre_authed now m' r
