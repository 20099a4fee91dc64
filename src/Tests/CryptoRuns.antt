-- ===== src/Tests/CryptoRuns.antt =====
-- Runs of SHA-256.
use naitron_c.Prelude.{ℕ, ◌≡◌, arith, codes}
use naitron_c.Crypto.Sha.{ShaCtx, sha_init, sha_update}
use naitron_c.Crypto.ShaLaws.{feeds, sha_update-feeds}

abbrev with_total_of : ShaCtx → ℕ → ShaCtx
with_total_of c t = record c { total = t }

sha_update-feeds_example :
    sha_update sha_init (codes "abc") ≡ with_total_of (feeds sha_init (codes "abc")) 3
sha_update-feeds_example = sha_update-feeds sha_init (codes "abc") (omega arith)
