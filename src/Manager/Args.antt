-- ===== src/Manager/Args.antt =====
-- What `_createContainer` (comnetsemu/net.py) makes of the caller's Docker arguments.
use comnetsemu.Prelude.{
  String, true, false, Option, none, some, List, [], ◌∷◌, ◌==◌, string_eq, ◌≡◌, ◌≢◌, refl, sym, ◌∙◌,
  arith, Option-cases, inl, inr, All, All-at, All-each, Memᴰ, beq_ne, ◌⊎◌,
}
use comnetsemu.Prelude.Dict.{lookup, contains, insert, update, lookup-insert}
use comnetsemu.Manager.Data.{Arg, DockerArgs}
use comnetsemu.Manager.Create.{
  reserved_docker_args, docker_args_default, docker_volumes_default, any_reserved, fill_args,
  check_args, prepare_volumes, prepare_args,
}
use comnetsemu.Manager.Prepared.{
  begun_keys, managed_keys, forbidden_keys, IsNone, HasShared, IsHalf, IsFilled, NoReserved,
  HasReserved, Prepares,
}

fill_args-others :
    (name dhost_id dimage dcmd : String) (args : DockerArgs) (k : String)
    → IsNone k managed_keys
    → lookup k (fill_args name dhost_id dimage dcmd args) ≡ lookup k args
unfolding fill_args update
fill_args-others name dhost_id dimage dcmd args k h = simp (
  lookup-insert,
  apart "init" h.0,
  apart "tty" h.1.0,
  apart "detach" h.1.1.0,
  apart "labels" h.1.1.1.0,
  apart "security_opt" h.1.1.1.1.0,
  apart "name" h.1.1.1.1.1.0,
  apart "image" h.1.1.1.1.1.1.0,
  apart "cgroup_parent" h.1.1.1.1.1.1.1.0,
  apart "command" h.1.1.1.1.1.1.1.1.0,
  apart "network_mode" h.1.1.1.1.1.1.1.1.1.0,
)
  where
    apart : (j : String) → j ≢ k → (j == k) ≡ false
    apart j ne = beq_ne j k ne

begin_args-others :
    (name dimage : String) (args : DockerArgs) (k : String)
    → IsNone k begun_keys
    → lookup k (
        insert "image"
          (Arg.text dimage)
          (insert "name" (Arg.text name) (update args docker_args_default)))
      ≡ lookup k args
unfolding update
begin_args-others name dimage args k h = simp (
  lookup-insert,
  apart "init" h.0,
  apart "tty" h.1.0,
  apart "detach" h.1.1.0,
  apart "labels" h.1.1.1.0,
  apart "security_opt" h.1.1.1.1.0,
  apart "name" h.1.1.1.1.1.0,
  apart "image" h.1.1.1.1.1.1.0,
)
  where
    apart : (j : String) → j ≢ k → (j == k) ≡ false
    apart j ne = beq_ne j k ne

any_reserved-cases :
    (ks : List String) (args : DockerArgs)
    → ((any_reserved ks args ≡ false) × All (λ k. lookup k args ≡ none) ks)
      ⊎ ((any_reserved ks args ≡ true)
          × ((k : String) × (v : Arg) × Memᴰ k ks × (lookup k args ≡ some v)))
unfolding any_reserved contains
any_reserved-cases [] args = inl (refl, tt)
any_reserved-cases (k ∷ ks) args = elim (Option-cases (lookup k args)) [
  | inr (v, here) ↦ inr (rw (any_reserved, contains, here) refl, (k, v, Memᴰ.head refl, here))
  | inl gone ↦ elim (any_reserved-cases ks args) [
    | inl (e, rest) ↦ inl (rw (any_reserved, contains, gone) e, (gone, rest))
    | inr (e, (j, v, m, h)) ↦ inr (rw (any_reserved, contains, gone) e, (j, v, Memᴰ.tail m, h))
  ]
]

fill_args-IsFilled :
    (name dhost_id dimage dcmd : String) (given args : DockerArgs)
    → HasShared given args
    → IsFilled name dhost_id dimage dcmd given (fill_args name dhost_id dimage dcmd args)
unfolding fill_args update
fill_args-IsFilled name dhost_id dimage dcmd given args h = record {
  begun = record {
    init = simp lookup-insert;
    tty = simp lookup-insert;
    detach = simp lookup-insert;
    labels = simp lookup-insert;
    security_opt = simp lookup-insert;
    named = simp lookup-insert;
    image = simp lookup-insert;
    no_volumes = λ e. simp lookup-insert (h.no_volumes e);
    volumes = λ t e. simp lookup-insert (h.volumes t e);
  };
  cgroup_parent = simp lookup-insert;
  command = simp lookup-insert;
  network_mode = simp lookup-insert;
  others = λ k other ne. fill_args-others name dhost_id dimage dcmd args k other ∙ h.others k ne;
}

begin_args-IsHalf :
    (name dimage : String) (given args : DockerArgs)
    → HasShared given args
    → IsHalf name dimage given (
        insert "image"
          (Arg.text dimage)
          (insert "name" (Arg.text name) (update args docker_args_default)))
unfolding update
begin_args-IsHalf name dimage given args h = record {
  begun = record {
    init = simp lookup-insert;
    tty = simp lookup-insert;
    detach = simp lookup-insert;
    labels = simp lookup-insert;
    security_opt = simp lookup-insert;
    named = simp lookup-insert;
    image = simp lookup-insert;
    no_volumes = λ e. simp lookup-insert (h.no_volumes e);
    volumes = λ t e. simp lookup-insert (h.volumes t e);
  };
  others = λ k other ne. begin_args-others name dimage args k other ∙ h.others k ne;
}

no_volumes : (k : String) → Memᴰ k forbidden_keys → k ≢ "volumes"
no_volumes k m e =
    let apart : All (λ j. (j == "volumes") ≡ false) forbidden_keys =
      (refl, (refl, (refl, (refl, (refl, (refl, (refl, tt))))))) in
    let other = All-at (λ j. (j == "volumes") ≡ false) forbidden_keys apart m in
    let bad = rw e at other in absurd (cc)

shared-HasReserved :
    (given args : DockerArgs) → HasShared given args → HasReserved args → HasReserved given
shared-HasReserved given args h (k, v, m, e) = (k, v, m, sym (h.others k (no_volumes k m)) ∙ e)

shared-NoReserved :
    (given args : DockerArgs) → HasShared given args → NoReserved args → NoReserved given
shared-NoReserved given args h none_there =
    All-each (λ k. lookup k given ≡ none) forbidden_keys
      (λ k m.
        sym (h.others k (no_volumes k m))
        ∙ All-at (λ j. lookup j args ≡ none) forbidden_keys none_there m)

check_args-Prepares :
    (name : String) (dhost_id : Option String) (dimage dcmd : String) (given args : DockerArgs)
    → HasShared given args
    → Prepares name dhost_id dimage dcmd given (check_args name dhost_id dimage dcmd args)
unfolding check_args
check_args-Prepares name dhost_id dimage dcmd given args h =
    elim (any_reserved-cases reserved_docker_args args) [
      | inr (bad, there) ↦ rw bad (inr (inl (shared-HasReserved given args h there, refl, h)))
      | inl (good, free) ↦ elim (Option-cases dhost_id) [
        | inl e ↦
            rw (good, e)
              (inr (
                inr (
                  shared-NoReserved given args h free,
                  refl,
                  refl,
                  begin_args-IsHalf name dimage given args h,
                )))
        | inr (i, e) ↦
            rw (good, e)
              (
                i,
                refl,
                shared-NoReserved given args h free,
                fill_args-IsFilled name i dimage dcmd given args h,
              )
      ]
    ]

prepare_volumes-Prepares :
    (o : Option Arg) (name : String) (dhost_id : Option String) (dimage dcmd : String)
    (given : DockerArgs)
    → lookup "volumes" given ≡ o
    → Prepares name dhost_id dimage dcmd given (prepare_volumes o name dhost_id dimage dcmd given)
unfolding prepare_volumes
prepare_volumes-Prepares none name dhost_id dimage dcmd given e =
    check_args-Prepares name dhost_id dimage dcmd given given
      (record { no_volumes = λ h. h; volumes = λ t h. cc; others = λ k h. refl })
prepare_volumes-Prepares (some (Arg.table t)) name dhost_id dimage dcmd given e =
    check_args-Prepares name dhost_id dimage dcmd given
      (insert "volumes" (Arg.table (update t docker_volumes_default)) given)
      (record {
        no_volumes = λ h. cc;
        volumes = λ u h. simp lookup-insert (ground arith);
        others = λ k ne. rw (lookup-insert, beq_ne "volumes" k (λ h. ne (sym h))) refl;
      })
prepare_volumes-Prepares (some v) name dhost_id dimage dcmd given e = inl (_, e, tt, refl, refl)

pub prepare_args-Prepares :
    (name : String) (dhost_id : Option String) (dimage dcmd : String) (given : DockerArgs)
    → Prepares name dhost_id dimage dcmd given (prepare_args name dhost_id dimage dcmd given)
unfolding prepare_args
prepare_args-Prepares name dhost_id dimage dcmd given =
    prepare_volumes-Prepares (lookup "volumes" given) name dhost_id dimage dcmd given refl
