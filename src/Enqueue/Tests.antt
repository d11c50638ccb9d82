-- ===== src/Enqueue/Tests.antt =====
-- Handlers on concrete objects, and the theorems at concrete inputs. An object is its annotations,
-- and the queue the list of the requests that were added, the last first.
use operator_lib.Common.{
  String, true, ◌≡◌, refl, ◌≢◌, ◌↔◌, List, [], ◌∷◌, none, some, ok, returned, panicked,
  if◌then◌else◌, ◌==◌, string_eq, arith,
}
use operator_lib.Common.Maps.{lookup, insert}
use operator_lib.Common.Text.{◌++ˢ◌, trim_space, split_two}
use operator_lib.Common.Text.Laws.{Lacks}
use operator_lib.Objects.{GroupKind, GroupVersionKind}
use operator_lib.Enqueue.{
  Annotations, namespaced_name_annotation, type_annotation, parse_namespaced_name, Request,
  request_for, get_annotation_requests, handle_create, handle_update, handle, Owner,
  set_owner_annotations,
}
use operator_lib.Enqueue.Parse.{Reads, parse_iff}
use operator_lib.Enqueue.Requests.{Names, get_annotation_requests_iff, Finds}
use operator_lib.Enqueue.Events.{AllOwned, handle-adds, handle-adds_owner}
use mathlib.Core.Quot
use operator_lib.Enqueue.Maps.{AnnotationMap, annotate, set_owner, requests_of}
use operator_lib.Enqueue.SetOwner.{Sets, set_owner_iff}
use operator_lib.Enqueue.Edits.{edit, found, requests_of-edit_owner}
use operator_lib.Annotation.{update}

abbrev text_of : GroupKind → String
text_of gk = if gk.group == "" then gk.kind else gk.kind ++ˢ ("." ++ˢ gk.group)

abbrev kind_of : GroupVersionKind → GroupKind
kind_of gvk = record { group = gvk.group; kind = gvk.kind }

abbrev identity : Annotations → Annotations
identity m = m

abbrev push : Request → List Request → List Request
push r q = r ∷ q

abbrev replica_set : GroupKind
replica_set = record { group = "apps"; kind = "ReplicaSet" }

abbrev annotated : String → Annotations
annotated name = (namespaced_name_annotation, name) ∷ (type_annotation, "ReplicaSet.apps") ∷ []

abbrev request_of : String → String → Request
request_of ns name = record { namespaced_name = record { namespace = ns; name = name } }

enqueuing : Unit {0}
unfolding lookup insert trim_space split_two request_for parse_namespaced_name
    get_annotation_requests handle_create handle_update set_owner_annotations
enqueuing = tt

parses :
    (parse_namespaced_name "ns/a/b" ≡ record { namespace = "ns"; name = "a/b" })
    × (parse_namespaced_name "a" ≡ record { namespace = ""; name = "a" })
    × (parse_namespaced_name "/a" ≡ record { namespace = ""; name = "a" })
unfolding enqueuing
parses = (refl, refl, refl)

creates :
    (handle_create text_of identity replica_set push (some (annotated "ns/a")) []
      ≡ returned (request_of "ns" "a" ∷ []))
    × (handle_create text_of identity replica_set push (some (annotated " \t")) [] ≡ returned [])
    × (handle_create text_of identity replica_set push (some []) [] ≡ returned [])
    × (handle_create text_of identity replica_set push none [] ≡ panicked)
unfolding enqueuing
creates = (refl, refl, refl, refl)

abbrev owner : String → Owner
owner ns = record {
  name = "a";
  namespace = ns;
  group_version_kind = record { group = "apps"; version = "v1"; kind = "ReplicaSet" };
}

abbrev keep : Annotations
keep = ("app", "x") ∷ []

abbrev set_on_keep : Annotations
set_on_keep =
    ("app", "x") ∷ (namespaced_name_annotation, "ns/a") ∷ (type_annotation, "ReplicaSet.apps") ∷ []

-- For an owner with no namespace the text is not the name alone.
cluster_scoped :
    set_owner_annotations text_of kind_of (owner "") none
    ≡ ok ((namespaced_name_annotation, "/a") ∷ (type_annotation, "ReplicaSet.apps") ∷ [])
unfolding enqueuing
cluster_scoped = refl

ns-Lacks : Lacks "/" "ns"
ns-Lacks = ground arith

parse_iff_example :
    (parse_namespaced_name "ns/a/b" ≡ record { namespace = "ns"; name = "a/b" })
    ↔ Reads "ns/a/b" (record { namespace = "ns"; name = "a/b" })
parse_iff_example = parse_iff "ns/a/b" (record { namespace = "ns"; name = "a/b" })

app_is_other :
    (◌≢◌ {A = String} "app" type_annotation) × (◌≢◌ {A = String} "app" namespaced_name_annotation)
app_is_other = (
  (λ e. ground (arith, string_eq.beq_iff "app" type_annotation)),
  (λ e. ground (arith, string_eq.beq_iff "app" namespaced_name_annotation)),
)

set_owner_iff_example :
    (set_owner text_of kind_of (owner "ns") (Quot.mk keep) ≡ ok (Quot.mk set_on_keep))
    ↔ Sets text_of kind_of (owner "ns") (Quot.mk keep) (ok (Quot.mk set_on_keep))
set_owner_iff_example =
    set_owner_iff text_of kind_of (owner "ns") (Quot.mk keep) (ok (Quot.mk set_on_keep))

abbrev edited : AnnotationMap
edited = edit (("app", "y") ∷ []) (Quot.mk set_on_keep)

requests_of-edit_owner_example :
    requests_of text_of replica_set edited ≡ found text_of kind_of replica_set (owner "ns")
unfolding enqueuing set_owner annotate
requests_of-edit_owner_example =
    requests_of-edit_owner text_of kind_of replica_set (owner "ns") (Quot.mk keep)
      (Quot.mk set_on_keep) (("app", "y") ∷ []) refl ns-Lacks (app_is_other.0, app_is_other.1, tt)

get_annotation_requests_iff_example :
    (get_annotation_requests text_of identity replica_set (some (annotated "ns/a"))
      ≡ returned (true, request_of "ns" "a"))
    ↔ Names text_of replica_set (annotated "ns/a") (request_of "ns" "a")
get_annotation_requests_iff_example =
    get_annotation_requests_iff text_of identity replica_set (annotated "ns/a")
      (request_of "ns" "a")

Finds-a : Finds text_of replica_set (annotated "ns/a") (some (request_of "ns" "a"))
unfolding enqueuing
Finds-a = ("ns/a", refl, refl, (λ e. ground (arith, string_eq.beq_iff "ns/a" "")), refl)

Finds-none : Finds text_of replica_set keep none
unfolding enqueuing
Finds-none req names = let typed = names.1 in cc

handle-adds_example :
    handle text_of identity replica_set push (update (some (annotated "ns/a")) (some keep)) []
    ≡ returned (request_of "ns" "a" ∷ [])
handle-adds_example =
    handle-adds text_of identity replica_set push (update (some (annotated "ns/a")) (some keep))
      (annotated "ns/a" ∷ keep ∷ []) (some (request_of "ns" "a") ∷ none ∷ []) [] refl
      (Finds-a, (Finds-none, tt))

-- Both objects of an update have the owner "ns/a".
owned :
    AllOwned text_of kind_of identity replica_set push
      (owner "ns")
      (set_on_keep ∷ annotated "ns/a" ∷ [])
unfolding enqueuing
owned = ((some keep, refl), ((none, refl), tt))

handle-adds_owner_example :
    handle text_of identity replica_set push
      (update (some set_on_keep) (some (annotated "ns/a")))
      []
    ≡ returned (
        if text_of replica_set == text_of replica_set
        then request_of "ns" "a" ∷ request_of "ns" "a" ∷ []
        else [])
handle-adds_owner_example =
    handle-adds_owner text_of kind_of identity replica_set push (owner "ns")
      (update (some set_on_keep) (some (annotated "ns/a"))) (set_on_keep ∷ annotated "ns/a" ∷ []) []
      refl ns-Lacks owned
