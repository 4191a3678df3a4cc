-- ===== src/Modules/Bulletin/Tests.antt =====
-- A bulletin on sorted lists, with length-prefixed records and an access control module that grants
-- everything, and the theorems at it.
use hub_rs.Prelude.{
  ℕ, ◌*◌, ◌^◌, zero, suc, ◌+◌, ◌≤◌, Bool, true, false, Option, none, some, List, [], ◌∷◌, ◌++◌, ◌≡◌,
  ◌≢◌, ◌↔◌, refl, sym, ap, subst, ◌∙◌, arith, length, leb, ◌&&◌, if◌then◌else◌,
}
use hub_rs.Identity.{Did}
use hub_rs.Text.{codes, starts_with}
use hub_rs.Modules.Bulletin.Restored.{validate_storage_keys_passes}
use hub_rs.Modules.Results.{◌>>=◌, ok, err}
use hub_rs.Modules.OrdMap.{Bytes}
use hub_rs.Modules.OrdMap.SortedList.{sorted_list}
use hub_rs.Modules.KvStore.{get_ref, prefix_scan, from_pairs}
use hub_rs.Modules.Bulletin.Keys.{
  namespace_id, post_key, collaborator_key, post_prefix, collaborator_prefix, record_keys_distinct,
}
use hub_rs.Modules.Bulletin.Glob.{glob_match}
use hub_rs.Modules.Bulletin.Glob.Matches.{Matches}
use hub_rs.Modules.Bulletin.Glob.Correct.{glob_match_iff}
use hub_rs.Modules.Bulletin.Types.{
  Timestamp, Namespace, Post, Collaborator, Services, Acp, Codec, query_limit, post_already_exists,
}
use hub_rs.Modules.Bulletin.Storage.{
  validate_storage_keys, get_policy_id, get_params, Store, get_namespace, get_post,
  get_collaborator, key_of_post, collect_records, max_records, max_bytes,
}
use hub_rs.Modules.Bulletin.Collect.{
  Hold, hold_none, hold_more, total_bytes, select_from, collect_records_complete,
}
use hub_rs.Modules.Bulletin.Handlers.{Site, create_post, register_namespace}
use hub_rs.Modules.Bulletin.Queries.{query_post, query_iterate_glob}
use hub_rs.Modules.Bulletin.Answers.{
  Message, register, post, add, drop_out, run_messages, new_site, point_reads_answer,
  query_iterate_glob_complete,
}
use hub_rs.Modules.Bulletin.Posts.{accepted_post_stays}

-- A field is its length and its bytes.
abbrev put_field : Bytes → Bytes → Bytes
put_field field rest = length field ∷ (field ++ rest)

abbrev cons_first : ℕ → Bytes × Bytes → Bytes × Bytes
cons_first c (a, b) = (c ∷ a, b)

abbrev split_at : ℕ → Bytes → Bytes × Bytes
split_at zero s = ([], s)
split_at (suc n) [] = ([], [])
split_at (suc n) (c ∷ s) = cons_first c (split_at n s)

split_at-append : (a b : Bytes) → split_at (length a) (a ++ b) ≡ (a, b)
split_at-append [] b = refl
split_at-append (c ∷ a) b = ap (cons_first c) (split_at-append a b)

abbrev with_field : {T : Type 0} → (Bytes → Bytes → Option T) → Bytes → Option T
with_field rest [] = none
with_field rest (n ∷ s) = let (field, later) = split_at n s in rest field later

abbrev post_from : Bytes → Option Post
post_from = with_field (λ id. with_field (λ namespace. with_field (λ creator. with_field (λ payload.
    with_field (λ proof end. some (record {
      id = id;
      namespace = namespace;
      creator_did = creator;
      payload = payload;
      proof = proof;
    }))))))

abbrev post_to : Post → Bytes
post_to p =
    put_field p.id
      (put_field p.namespace (put_field p.creator_did (put_field p.payload (put_field p.proof []))))

abbrev post_codec : Codec Post
post_codec = record {
  to_vec = post_to;
  from_slice = post_from;
  from_slice-to_vec = λ p. simp split_at-append refl;
}

abbrev collaborator_codec : Codec Collaborator
collaborator_codec = record {
  to_vec = λ c. put_field c.did (put_field c.namespace []);
  from_slice =
      with_field
        (λ did. with_field (λ namespace end. some (record { did = did; namespace = namespace })));
  from_slice-to_vec = λ c. simp split_at-append refl;
}

abbrev times_from : Bytes → Bytes → Bytes → Bytes → Option Namespace
times_from id creator owner (seconds ∷ height ∷ []) = some (record {
  id = id;
  creator = creator;
  owner_did = owner;
  created_at = record { seconds = seconds; block_height = height };
})
times_from id creator owner _ = none

abbrev namespace_codec : Codec Namespace
namespace_codec = record {
  to_vec = λ n. put_field n.id (
      put_field n.creator
        (put_field n.owner_did (n.created_at.seconds ∷ n.created_at.block_height ∷ [])));
  from_slice =
      with_field
        (λ id. with_field (λ creator. with_field (λ owner rest. times_from id creator owner rest)));
  from_slice-to_vec = λ n. simp split_at-append refl;
}

-- Its state is the number of commands.
abbrev granting : Acp
granting = record {
  State = ℕ;
  create_policy = λ creator yaml n. (some (codes "policy"), n);
  direct_policy_cmd = λ creator policy cmd n. (true, suc n);
  query_verify_access_request = λ policy request n. some true;
}

abbrev services : Services
services = record {
  maps = sorted_list;
  acp = granting;
  namespaces = namespace_codec;
  posts = post_codec;
  collaborators = collaborator_codec;
  sha256_hex = λ bytes. bytes;
  is_utf8 = λ bytes. true;
  is_params = λ bytes. true;
}

abbrev alice : Did
alice = record { as_str = codes "did:key:alice" }

abbrev now : Timestamp
now = record { seconds = 5; block_height = 1 }

abbrev messages : List Message
messages =
    register now (codes "signer") alice (codes "n")
    ∷ post alice (codes "n") (codes "hello") (codes "proof")
    ∷ post alice (codes "n") (codes "world") []
    ∷ add alice (codes "n") (codes "did:key:bob")
    ∷ post alice (codes "n") (codes "hello") []
    ∷ drop_out alice (codes "n") (codes "did:key:bob")
    ∷ []

abbrev site : Site services
site = run_messages services messages (new_site services 0)

point_reads_answer_example :
    ((found : Option Namespace) × (get_namespace services (codes "bulletin/n") site.store
        ≡ ok found))
    × ((found : Option Post) × (get_post services
            (codes "bulletin/n")
            (codes "bulletin/nhello")
            site.store
          ≡ ok found))
    × ((found : Option Collaborator) × (get_collaborator services
            (codes "bulletin/n")
            (codes "bulletin/nhello")
            site.store
          ≡ ok found))
point_reads_answer_example =
    point_reads_answer services 0 messages (codes "bulletin/n") (codes "bulletin/nhello")

short : length (post_prefix (namespace_id (codes "n"))) ≤ 64 * 2 ^ 10
unfolding post_prefix starts_with hub_rs.Modules.Bulletin.Keys.sanitize_key_part
    hub_rs.Modules.Bulletin.Keys.replace
short = omega arith

query_iterate_glob_complete_example :
    let entries = prefix_scan services.maps (post_prefix (namespace_id (codes "n"))) site.store in
    (posts : List Post) × Hold post_codec (key_of_post services) entries posts
    × (query_iterate_glob services (codes "n") (codes "*lo") site.store ≡ (
        if leb (length entries) max_records && leb (total_bytes entries) max_bytes
        then ok (select_from (λ p. glob_match (codes "*lo") p.id) posts)
        else err query_limit))
query_iterate_glob_complete_example =
    query_iterate_glob_complete services 0 messages (codes "n") (codes "*lo") refl short
      (omega arith)

abbrev hello : Post
hello = record {
  id = codes "1";
  namespace = codes "bulletin/n";
  creator_did = codes "did:key:alice";
  payload = codes "hello";
  proof = [];
}

abbrev one_post : Store services
one_post = from_pairs sorted_list ((key_of_post services hello, post_to hello) ∷ [])

scanned :
    prefix_scan sorted_list (codes "post/") one_post
    ≡ (key_of_post services hello, post_to hello) ∷ []
unfolding prefix_scan sorted_list post_key hub_rs.Prelude.Equality.list_beq
    hub_rs.Modules.OrdMap.bytes_lt hub_rs.Modules.Bulletin.Keys.sanitize_key_part
    hub_rs.Modules.Bulletin.Keys.replace
scanned = refl

one_held :
    Hold post_codec
      (key_of_post services)
      (prefix_scan sorted_list (codes "post/") one_post)
      (hello ∷ [])
one_held =
    subst (λ es. Hold post_codec (key_of_post services) es (hello ∷ [])) (sym scanned)
      (hold_more refl refl hold_none)

collect_records_complete_example :
    collect_records post_codec
      (key_of_post services)
      sorted_list
      (codes "post/")
      (λ p. true)
      one_post
    ≡ (if leb (length (prefix_scan sorted_list (codes "post/") one_post)) max_records
          && leb (total_bytes (prefix_scan sorted_list (codes "post/") one_post)) max_bytes
        then ok (hello ∷ [])
        else err query_limit)
collect_records_complete_example =
    collect_records_complete post_codec (key_of_post services) sorted_list (codes "post/")
      (λ p. true) one_post (hello ∷ []) one_held (omega arith)

glob_match_iff_example :
    (glob_match (codes "a*b*c") (codes "a--bb-c") ≡ true)
    ↔ Matches (codes "a*b*c") (codes "a--bb-c")
glob_match_iff_example = glob_match_iff (codes "a*b*c") (codes "a--bb-c")

record_keys_distinct_example :
    ((post_key (codes "a/b") (codes "c") ≡ post_key (codes "a|b") (codes "c"))
      ↔ ((codes "a/b" ≡ codes "a|b") × (codes "c" ≡ codes "c")))
    × ((collaborator_key (codes "a/b") (codes "c") ≡ collaborator_key (codes "a|b") (codes "c"))
        ↔ ((codes "a/b" ≡ codes "a|b") × (codes "c" ≡ codes "c")))
    × ((starts_with (post_prefix (codes "a/b")) (post_key (codes "a|b") (codes "c")) ≡ true)
        ↔ (codes "a/b" ≡ codes "a|b"))
    × ((starts_with (collaborator_prefix (codes "a/b")) (collaborator_key (codes "a|b") (codes "c"))
          ≡ true)
        ↔ (codes "a/b" ≡ codes "a|b"))
record_keys_distinct_example =
    record_keys_distinct (codes "a/b") (codes "c") (codes "a|b") (codes "c")

abbrev registered : Site services
registered =
    (register_namespace services now (codes "signer") alice (codes "n") (new_site services 0)).1

hello_accepted :
    (create_post services alice (codes "n") (codes "hello") [] registered).0
    ≡ ok (codes "bulletin/nhello")
unfolding create_post register_namespace sorted_list hub_rs.Modules.Bulletin.Handlers.◌>>=◌
    hub_rs.Prelude.Equality.list_beq hub_rs.Modules.OrdMap.bytes_lt
    hub_rs.Modules.Bulletin.Keys.sanitize_key_part hub_rs.Modules.Bulletin.Keys.replace
    hub_rs.Identity.new post_key
hello_accepted = refl

accepted_post_stays_example :
    let s' = (create_post services alice (codes "n") (codes "hello") [] registered).1 in
    (query_post services (codes "n") (codes "bulletin/nhello") s'.store
      ≡ ok (record {
        id = codes "bulletin/nhello";
        namespace = namespace_id (codes "n");
        creator_did = codes "did:key:alice";
        payload = codes "hello";
        proof = [];
      }))
    × ((key : Bytes)
        → post_key (namespace_id (codes "n")) (codes "bulletin/nhello") ≢ key
        → get_ref sorted_list key s'.store ≡ get_ref sorted_list key registered.store)
    × (s'.acp ≡ registered.acp)
    × ((again : Bytes)
        → create_post services alice (codes "n") (codes "hello") again s'
          ≡ (err (post_already_exists (codes "n") (codes "bulletin/nhello")), s'))
accepted_post_stays_example =
    accepted_post_stays services alice (codes "n") (codes "hello") [] (codes "bulletin/nhello")
      registered hello_accepted

validate_storage_keys_passes_example : validate_storage_keys services site.store ≡ (
    get_policy_id services site.store >>= λ id. get_params services site.store >>= λ params. ok tt)
validate_storage_keys_passes_example = validate_storage_keys_passes services 0 messages
