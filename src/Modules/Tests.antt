-- ===== src/Modules/Tests.antt =====
-- Short runs of the key-value store and of the nonces, and the theorems at them.
use hub_rs.Prelude.{
  ℕ, ◌+◌, ◌<◌, ◌^◌, Bool, true, false, Option, none, some, List, [], ◌∷◌, ◌≡◌, ◌≢◌, ◌⊎◌, refl,
  arith, nat_eq, list_eq, length, if◌then◌else◌,
}
use hub_rs.Prelude.Map.{get}
use hub_rs.Text.{codes, starts_with}
use hub_rs.Modules.Results.{ok, err}
use hub_rs.Modules.OrdMap.{Bytes, IsSorted}
use hub_rs.Modules.OrdMap.SortedList.{sorted_list}
use hub_rs.Modules.KvStore.{
  KvStore, from_pairs, empty_store, clone_store, get_ref, prefix_scan, dirty_entries,
}
use hub_rs.Modules.KvStore.Scan.{prefix_scan_complete}
use hub_rs.Modules.KvStore.Dirty.{
  Write, put_write, delete_write, write_all, is_written, changed_or, dirty_entries_capture,
}
use hub_rs.Modules.Nonces.{NonceError, mismatch, check_and_increment, get_nonce}
use hub_rs.Modules.Nonces.Step.{IsStored, IsRefusal}
use hub_rs.Modules.Nonces.Replay.{
  run_checks, count_up, check_and_increment_effect, accepted_consecutive, replay_refused,
}

abbrev stored : KvStore sorted_list
stored = from_pairs sorted_list (
    (codes "post/b", codes "2") ∷ (codes "policy_id", codes "p") ∷ (codes "post/a", codes "1") ∷ [])

scanned :
    prefix_scan sorted_list (codes "post/") stored
    ≡ (codes "post/a", codes "1") ∷ (codes "post/b", codes "2") ∷ []
unfolding prefix_scan sorted_list hub_rs.Prelude.Equality.list_beq hub_rs.Modules.OrdMap.bytes_lt
scanned = refl

prefix_scan_complete_example :
    IsSorted (prefix_scan sorted_list (codes "post/") stored)
    × ((key : Bytes)
        → get key (prefix_scan sorted_list (codes "post/") stored)
          ≡ (if starts_with (codes "post/") key then get_ref sorted_list key stored else none))
prefix_scan_complete_example = prefix_scan_complete sorted_list (codes "post/") stored

abbrev writes : List Write
writes =
    put_write (codes "x") (codes "1")
    ∷ delete_write (codes "policy_id")
    ∷ put_write (codes "x") (codes "2")
    ∷ []

dirty_entries_capture_example :
    let after = write_all sorted_list writes (clone_store sorted_list stored) in
    let changes = dirty_entries sorted_list after in
    (get (codes "x") changes ≡ (
      if is_written (codes "x") writes then some (get_ref sorted_list (codes "x") after) else none))
    × (get_ref sorted_list (codes "x") after
        ≡ changed_or (get (codes "x") changes) (get_ref sorted_list (codes "x") stored))
dirty_entries_capture_example = dirty_entries_capture sorted_list stored writes (codes "x")

changes_seen :
    dirty_entries sorted_list (write_all sorted_list writes (clone_store sorted_list stored))
    ≡ (codes "x", some (codes "2")) ∷ (codes "policy_id", none) ∷ []
unfolding dirty_entries sorted_list write_all hub_rs.Prelude.Equality.list_beq
    hub_rs.Modules.OrdMap.bytes_lt
changes_seen = refl

abbrev no_nonces : KvStore sorted_list
no_nonces = empty_store sorted_list

abbrev alice : Bytes
alice = codes "did:key:alice"

abbrev bob : Bytes
bob = codes "did:key:bob"

abbrev txs : List (Bytes × ℕ)
txs = (alice, 0) ∷ (bob, 0) ∷ (alice, 0) ∷ (alice, 1) ∷ (bob, 7) ∷ []

new_at_zero : get_nonce sorted_list alice no_nonces ≡ ok 0
unfolding get_nonce sorted_list hub_rs.Prelude.Equality.list_beq hub_rs.Modules.OrdMap.bytes_lt
new_at_zero = refl

accepted_nonces : (run_checks sorted_list alice txs no_nonces).0 ≡ 0 ∷ 1 ∷ []
unfolding run_checks check_and_increment sorted_list hub_rs.Prelude.Equality.list_beq
    hub_rs.Modules.OrdMap.bytes_lt
accepted_nonces = refl

check_and_increment_effect_example :
    let (answer, s') = check_and_increment sorted_list alice 0 no_nonces in
    ((answer ≡ ok tt)
      × IsStored sorted_list alice 0 no_nonces
      × (0 + 1 < 2 ^ 64)
      × IsStored sorted_list alice (0 + 1) s'
      × (get_nonce sorted_list alice s' ≡ ok (0 + 1))
      × ((other : Bytes)
          → alice ≢ other
          → get_nonce sorted_list other s' ≡ get_nonce sorted_list other no_nonces))
    ⊎ ((e : NonceError) × (answer ≡ err e)
        × (s' ≡ no_nonces)
        × IsRefusal sorted_list e alice 0 no_nonces)
check_and_increment_effect_example = check_and_increment_effect sorted_list alice 0 no_nonces

accepted_consecutive_example :
    let (accepted, s') = run_checks sorted_list alice txs no_nonces in
    (accepted ≡ count_up 0 (length accepted))
    × (get_nonce sorted_list alice s' ≡ ok (0 + length accepted))
accepted_consecutive_example = accepted_consecutive sorted_list alice txs no_nonces 0 new_at_zero

first_accepted : (check_and_increment sorted_list alice 0 no_nonces).0 ≡ ok tt
unfolding check_and_increment sorted_list hub_rs.Prelude.Equality.list_beq
    hub_rs.Modules.OrdMap.bytes_lt
first_accepted = refl

replay_refused_example :
    let s' =
      (run_checks sorted_list alice txs (check_and_increment sorted_list alice 0 no_nonces).1).1 in
    (expected : ℕ) × (0 < expected)
    × (check_and_increment sorted_list alice 0 s' ≡ (err (mismatch alice expected 0), s'))
replay_refused_example = replay_refused sorted_list alice 0 txs no_nonces first_accepted
