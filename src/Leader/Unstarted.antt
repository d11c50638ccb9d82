-- ===== src/Leader/Unstarted.antt =====
-- leader/leader.go, the start of `Become`: which errors it returns before it makes any call.
use operator_lib.Common.{
  String, ◌≡◌, refl, inl, inr, ◌↔◌, List, Result, ok, err, ◌==◌, string_eq, ==_sound, Bool-cases,
}
use operator_lib.Utils.{
  FileError, not_exist, unreadable, no_namespace, read_failed, get_operator_namespace,
}
use operator_lib.Leader.Program.{ret}
use operator_lib.Leader.Helpers.{
  Error, namespace, pod_name_unset, Config, Next, failed, my_owner_ref,
}
use operator_lib.Leader.Options.{Opt, configure}
use operator_lib.Leader.Loop.{start, become}

-- The errors, for what the configuration gives, POD_NAME, and what reading the file of the service
-- account's namespace gives.
pub data Unstarted {Client : Type 0} (pod_name : String) (c : Result Error (Config Client))
    (file : Result FileError String) : Error → Type 0 where
  unconfigured : (e : Error) → c ≡ err e → Unstarted pod_name c file e
  outside :
      (config : Config Client)
      → c ≡ ok config
      → file ≡ err not_exist
      → Unstarted pod_name c file (namespace no_namespace)
  unread :
      (config : Config Client) (reason : String)
      → c ≡ ok config
      → file ≡ err (unreadable reason)
      → Unstarted pod_name c file (namespace (read_failed (unreadable reason)))
  unnamed :
      (config : Config Client) (text : String)
      → c ≡ ok config
      → file ≡ ok text
      → pod_name ≡ ""
      → Unstarted pod_name c file pod_name_unset

module _ {Client : Type 0} (pod_name lock_name : String) where
  Unstarted-start :
      (c : Result Error (Config Client)) (file : Result FileError String) (e : Error)
      → Unstarted pod_name c file e
      → start pod_name c (get_operator_namespace file) lock_name ≡ ret (failed e)
  unfolding start my_owner_ref get_operator_namespace
  Unstarted-start c file error (Unstarted.unconfigured e bad) = rw bad refl
  Unstarted-start c file e (Unstarted.outside config good missing) = rw (good, missing) refl
  Unstarted-start c file e (Unstarted.unread config reason good broken) = rw (good, broken) refl
  Unstarted-start c file e (Unstarted.unnamed config text good there empty) =
      rw (good, there, empty) refl

  start-Unstarted :
      (c : Result Error (Config Client)) (file : Result FileError String) (x : Next Client)
      → start pod_name c (get_operator_namespace file) lock_name ≡ ret x
      → (e : Error) × (x ≡ failed e) × Unstarted pod_name c file e
  unfolding start my_owner_ref get_operator_namespace
  start-Unstarted (err e) file x h = (e, cc, Unstarted.unconfigured e refl)
  start-Unstarted (ok config) (err not_exist) x h = (_, cc, Unstarted.outside config refl refl)
  start-Unstarted (ok config) (err (unreadable reason)) x h =
      (_, cc, Unstarted.unread config reason refl refl)
  start-Unstarted (ok config) (ok text) x h = elim (Bool-cases (pod_name == "")) [
    | inl unset ↦
        let h' = rw unset at h in
        (_, cc, Unstarted.unnamed config text refl refl (==_sound pod_name "" unset))
    | inr set ↦ let h' = rw set at h in cc
  ]

-- `Become` returns before it makes any call exactly if it cannot be configured, with that error;
-- else if there is no namespace: with `ErrNoNamespace` if the service account's namespace file does
-- not exist, as outside a cluster, and with the error of reading it if it cannot be read; else if
-- POD_NAME is empty. It does not return nil without a call.
pub become-Unstarted_iff :
    {Client : Type 0} (pod_name lock_name : String) (file : Result FileError String)
    (in_cluster : Result Error Client) (opts : List (Opt Client)) (x : Next Client)
    → (become pod_name (get_operator_namespace file) in_cluster lock_name opts ≡ ret x)
      ↔ ((e : Error) × (x ≡ failed e) × Unstarted pod_name (configure in_cluster opts) file e)
unfolding become
become-Unstarted_iff pod_name lock_name file in_cluster opts x = (
  start-Unstarted pod_name lock_name (configure in_cluster opts) file x,
  λ (e, same, u). rw same (Unstarted-start pod_name lock_name (configure in_cluster opts) file e u),
)
