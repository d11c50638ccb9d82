-- ===== src/Enqueue/Parse.antt =====
-- handler/enqueue_annotation.go, `parseNamespacedName`: what it reads from a text.
use operator_lib.Common.{String, ◌≡◌, ap, sym, ◌∙◌, ◌↔◌, inl, inr, Option-cases}
use mathlib.Core.Path.{subst}
use operator_lib.Common.Text.{◌++ˢ◌, cut, split_two}
use operator_lib.Common.Text.Laws.{Lacks, cut_sound, none-cut}
use operator_lib.Objects.{NamespacedName}
use operator_lib.Enqueue.{parse_namespaced_name}
use operator_lib.Enqueue.RoundTrip.{format, slash-append, parse-format, parse_name}

-- `<namespace>/<name>`, up to the first slash; or a name alone, which has none.
pub data Reads : String → NamespacedName → Type 0 where
  qualified : (s : String) (n : NamespacedName) → Lacks "/" n.namespace → s ≡ format n → Reads s n
  bare : (s : String) → Lacks "/" s → Reads s (record { namespace = ""; name = s })

parse-Reads : (s : String) → Reads s (parse_namespaced_name s)
unfolding parse_namespaced_name split_two
parse-Reads s = elim (Option-cases (cut "/" s)) [
  | inl whole ↦ rw whole (Reads.bare s (none-cut "/" s whole))
  | inr (p, parts) ↦
      let (joined, lacks) = cut_sound "/" s p.0 p.1 parts in
      rw parts (Reads.qualified s _ lacks (joined ∙ ap (λ r. p.0 ++ˢ r) (sym (slash-append p.1))))
]

Reads-parse : (s : String) (n : NamespacedName) → Reads s n → parse_namespaced_name s ≡ n
Reads-parse s n (Reads.qualified text name lacks form) = rw form (parse-format n lacks)
Reads-parse s n (Reads.bare text lacks) = parse_name s lacks

-- What is parsed from a text is a namespace without a slash and a name, if the text is
-- `<namespace>/<name>` (the name may have slashes); and no namespace and the whole text as the name,
-- if the text has no slash. There is no other outcome, and each text has one.
pub parse_iff : (s : String) (n : NamespacedName) → (parse_namespaced_name s ≡ n) ↔ Reads s n
parse_iff s n = ((λ h. subst (Reads s) h (parse-Reads s)), Reads-parse s n)
