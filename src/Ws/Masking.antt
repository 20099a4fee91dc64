-- ===== src/Ws/Masking.antt =====
-- Unmasking a payload twice with one key gives the payload back.
use mathlib.Core.Bool.{◌&&◌}
use mathlib.Core.Path.{ap₂}
use naitron_c.Prelude.{
  ℕ, zero, suc, ◌+◌, ◌%◌, ◌<◌, Bool, true, ◌&&◌, [], ◌∷◌, ◌==◌, Bytes, length, ◌≡◌, refl, ap, arith,
  IsByte, All, ==_iff,
}
use Prim.Native.Nat.{bit_xor}
use naitron_c.Wire.Buffer.{byte_at}
use naitron_c.Ws.Codec.{unmask}

-- Does masking with `key` undo itself on the bytes below `b`?
key_undoes : (key b : ℕ) → Bool
key_undoes key zero = true
key_undoes key (suc b) = key_undoes key b && (bit_xor (bit_xor b key) key == b)

-- The same for all keys below `k`, on all bytes.
keys_undo : (k : ℕ) → Bool
keys_undo zero = true
keys_undo (suc k) = keys_undo k && key_undoes k 256

every_key : keys_undo 256 ≡ true
unfolding key_undoes keys_undo
every_key = refl

key_undoes_at : (key b x : ℕ) → x < b → key_undoes key b ≡ true → bit_xor (bit_xor x key) key ≡ x
unfolding key_undoes
key_undoes_at key zero x lt h = absurd (omega arith)
key_undoes_at key (suc b) x lt h = grind (arith, key_undoes_at key b x, ==_iff)

keys_undo_at : (k key : ℕ) → key < k → keys_undo k ≡ true → key_undoes key 256 ≡ true
unfolding keys_undo
keys_undo_at zero key lt h = absurd (omega arith)
keys_undo_at (suc k) key lt h = ground (arith, keys_undo_at k key)

xor_twice : (x key : ℕ) → x < 256 → key < 256 → bit_xor (bit_xor x key) key ≡ x
xor_twice x key hx hk = key_undoes_at key 256 x hx (keys_undo_at 256 key hk every_key)

pub unmask-unmask :
    (mask : Bytes) (i : ℕ) (bs : Bytes)
    → ((j : ℕ) → byte_at mask j < 256)
    → All IsByte bs
    → unmask mask i (unmask mask i bs) ≡ bs
unfolding unmask
unmask-unmask mask i [] hm hb = refl
unmask-unmask mask i (b ∷ bs) hm hb =
    ap₂ ◌∷◌ (xor_twice b (byte_at mask (i % 4)) hb.0 (hm (i % 4)))
      (unmask-unmask mask (i + 1) bs hm hb.1)

pub length-unmask : (mask : Bytes) (i : ℕ) (bs : Bytes) → length (unmask mask i bs) ≡ length bs
unfolding unmask
length-unmask mask i [] = refl
length-unmask mask i (b ∷ bs) = ap suc (length-unmask mask (i + 1) bs)

-- The masking of RFC 6455, written with the four bytes of the key in turn.
unfoldable pub masked_with : ℕ → ℕ → ℕ → ℕ → Bytes → Bytes
masked_with a b c d [] = []
masked_with a b c d (x ∷ xs) = bit_xor x a ∷ masked_with b c d a xs

-- The key starts where `i` stands in it.
masked_from :
    (mask bs : Bytes) (i k k1 k2 k3 : ℕ)
    → k ≡ i % 4
    → k1 ≡ (i + 1) % 4
    → k2 ≡ (i + 2) % 4
    → k3 ≡ (i + 3) % 4
    → masked_with (byte_at mask k) (byte_at mask k1) (byte_at mask k2) (byte_at mask k3) bs
      ≡ unmask mask i bs
unfolding masked_with unmask
masked_from mask [] i k k1 k2 k3 h h1 h2 h3 = refl
masked_from mask (x ∷ bs) i k k1 k2 k3 h h1 h2 h3 =
    ap₂ ◌∷◌ (ap (λ n. bit_xor x (byte_at mask n)) h) (
      masked_from mask bs (i + 1) k1 k2 k3 k h1 (omega (arith, h2)) (omega (arith, h3))
        (omega (arith, h)))

pub masked_with-unmask :
    (a b c d : ℕ) (bs : Bytes) → masked_with a b c d bs ≡ unmask (a ∷ b ∷ c ∷ d ∷ []) 0 bs
masked_with-unmask a b c d bs = masked_from (a ∷ b ∷ c ∷ d ∷ []) bs 0 0 1 2 3 refl refl refl refl
