-- ===== src/Tests/ServerRuns.antt =====
-- Runs of the parts of the server.
use naitron_c.Prelude.{ℕ, ◌≤◌, true, none, some, length, ◌≡◌, refl, arith, codes}
use naitron_c.Server.Stale.{
  conn_for_id-alloc_id, Reachable, Run, Reachable-IsTable, conn_for_id-stale,
}
use naitron_c.Server.Inflight.{
  max_inflight, Gateway, slots_below, slots_init, alloc_slot, alloc_from, alloc_id, free_slot,
  conn_for_id,
}
use naitron_c.Server.InflightLaws.{IsTable}
use naitron_c.Server.Url.{
  url_encode, url_decode, encode_loop, url_unit, is_unreserved, seg_pattern_match, pattern_loop,
  seg_ok, span_slash,
}
use naitron_c.Slice.{mem_equal}
use naitron_c.Server.UrlLaws.{url_decode-url_encode}

-- The first request of the connection 7 takes the last slot.
abbrev served : Gateway ℕ
served = (alloc_slot slots_init 7 4095 (slots_below 4095)).1

first_id : alloc_id slots_init 7 ≡ some (4095, served)
unfolding alloc_id alloc_from slots_init alloc_slot slots_below
first_id = refl

served-Reachable : Reachable served
served-Reachable = Reachable.alloc Reachable.start 7 4095 served first_id

Reachable-IsTable_example : IsTable served × (length served.free_slots ≤ max_inflight)
Reachable-IsTable_example = Reachable-IsTable served served-Reachable

served_gen : served.gen 4095 ≡ 0
unfolding alloc_slot slots_init
served_gen = refl

served_found : conn_for_id served 4095 ≡ some 7
served_found = conn_for_id-alloc_id slots_init 7 4095 served Reachable.start first_id

-- The id is stale behind the free, and when the slot is given to the connection 8.
conn_for_id-stale_example :
    conn_for_id (alloc_slot (free_slot served 4095) 8 4095 (slots_below 4095)).1 4095 ≡ none
conn_for_id-stale_example =
    conn_for_id-stale served (alloc_slot (free_slot served 4095) 8 4095 (slots_below 4095)).1 4095 1
      7 (omega (arith, served_gen)) served_found
      (Run.give (Run.free_this Run.stay) 8 4095 (slots_below 4095)) (omega arith) (omega arith)

encoded : url_encode 64 (codes "a b/+") ≡ codes "a%20b%2F%2B"
unfolding url_encode encode_loop url_unit is_unreserved
encoded = refl

patterns : seg_pattern_match (codes "/users/:id") (codes "/users/42") ≡ true
unfolding seg_pattern_match pattern_loop seg_ok span_slash mem_equal
patterns = refl

url_decode-url_encode_example : url_decode (url_encode 64 (codes "a b/+")) ≡ codes "a b/+"
url_decode-url_encode_example =
    url_decode-url_encode 64 (codes "a b/+")
      (omega arith, (omega arith, (omega arith, (omega arith, (omega arith, tt))))) (omega arith)
