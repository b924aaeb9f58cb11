-- ===== src/Rpc/Find/Precedence.antt =====
-- Which file is found for a service, and which user its configuration may set.
use qubes_core_qrexec.Prelude.{
  ℕ, ◌≤◌, ◌≡◌, refl, ap, sym, ◌∙◌, ◌≢◌, ◌⊎◌, inl, inr, true, false, not, Bool, Option, none, some,
  List, [], ◌∷◌, ◌++◌, All, arith, subst, Option-cases, length, Bytes,
}
use qubes_core_qrexec.Rpc.Command.{ParsedCommand, name_max}
use qubes_core_qrexec.Rpc.Find.{
  Mode, link, socket, other, Stat, present, enoent, failed, FileSystem, Found, found, absent, error,
  after_stat, after_readlink, after_lstat, look_up, find_file, or_else, find_service,
  with_config_user, load_service_config_raw, load_service_config_v2, qrexec_cmd_use_fork_server,
}
use qubes_core_qrexec.Rpc.Find.Directories.{directories, first_hit, find_file-directories}

-- `r` is the answer of the first directory that has one.
pub record IsFirst (look : Bytes → Option Found) (ds : List Bytes) (r : Found) : Type 0 where
  pub before : List Bytes
  pub dir : Bytes
  pub after : List Bytes
  pub in_order : ds ≡ before ++ (dir ∷ after)
  pub none_before : All (λ d. look d ≡ none) before
  pub answers : look dir ≡ some r

IsFirst-later :
    (look : Bytes → Option Found) (d : Bytes) (ds : List Bytes) (r : Found)
    → look d ≡ none
    → IsFirst look ds r
    → IsFirst look (d ∷ ds) r
IsFirst-later look d ds r e f = record {
  before = d ∷ f.before;
  dir = f.dir;
  after = f.after;
  in_order = ap (λ l. d ∷ l) f.in_order;
  none_before = (e, f.none_before);
  answers = f.answers;
}

first_hit-IsFirst :
    (look : Bytes → Option Found) (ds : List Bytes)
    → All (λ d. look d ≡ none) ds × (first_hit look ds ≡ absent)
      ⊎ IsFirst look ds (first_hit look ds)
first_hit-IsFirst look [] = inl (tt, refl)
first_hit-IsFirst look (d ∷ ds) = elim (Option-cases (look d)) [
  | inl e ↦ elim (first_hit-IsFirst look ds) [
    | inl (a, h) ↦ inl ((e, a), rw (e, first_hit) h)
    | inr f ↦ inr (rw (e, first_hit) (IsFirst-later look d ds (first_hit look ds) e f))
  ]
  | inr (r, e) ↦ inr (
      rw (e, first_hit)
        (record {
          before = [];
          dir = d;
          after = ds;
          in_order = refl;
          none_before = tt;
          answers = e;
        }))
]

after_stat_lem : (path : Bytes) (s : Stat) → after_stat path s ≢ some absent
after_stat_lem path (present m) h = cc
after_stat_lem path enoent h = cc
after_stat_lem path failed h = cc

after_readlink_lem :
    (fs : FileSystem) (size : ℕ) (path : Bytes) (t : Option Bytes)
    → after_readlink fs size path t ≢ some absent
unfolding after_readlink
after_readlink_lem fs size path none h = cc
after_readlink_lem fs size path (some t) h =
    let n = after_stat_lem path (fs.stat path) in ground arith

after_lstat_lem :
    (fs : FileSystem) (with_statbuf : Bool) (size : ℕ) (path : Bytes) (s : Stat)
    → after_lstat fs with_statbuf size path s ≢ some absent
unfolding after_lstat
after_lstat_lem fs true size path (present link) h =
    after_readlink_lem fs size path (fs.readlink path) h
after_lstat_lem fs false size path (present link) h = after_stat_lem path (fs.stat path) h
after_lstat_lem fs true size path (present socket) h = cc
after_lstat_lem fs false size path (present socket) h = cc
after_lstat_lem fs true size path (present other) h = cc
after_lstat_lem fs false size path (present other) h = cc
after_lstat_lem fs true size path enoent h = cc
after_lstat_lem fs false size path enoent h = cc
after_lstat_lem fs true size path failed h = cc
after_lstat_lem fs false size path failed h = cc

look_up_lem :
    (fs : FileSystem) (with_statbuf : Bool) (size : ℕ) (name dir : Bytes)
    → look_up fs with_statbuf size name dir ≢ some absent
unfolding look_up
look_up_lem fs with_statbuf size name dir h =
    let path = dir ++ (b'/' ∷ name) in
    let n = after_lstat_lem fs with_statbuf size path (fs.lstat path) in ground arith

-- The first file for the descriptor, or else the first one for the name.
abbrev pub Precedes : (Bytes → Option Found) → (Bytes → Option Found) → List Bytes → Found → Type 0
Precedes look later ds r = IsFirst look ds r ⊎ (All (λ d. look d ≡ none) ds × IsFirst later ds r)

from_later :
    (look later : Bytes → Option Found) (ds : List Bytes) (p : Bytes) (m : Mode)
    → All (λ d. look d ≡ none) ds
    → first_hit later ds ≡ found p m
    → Precedes look later ds (found p m)
from_later look later ds p m a h = elim (first_hit-IsFirst later ds) [
  | inl (_, e) ↦ absurd cc
  | inr f ↦ inr (a, subst (IsFirst later ds) h f)
]

or_else_found :
    (r later : Found) (p : Bytes) (m : Mode) (answer : Option Found)
    → answer ≢ some absent
    → answer ≡ some r
    → or_else r later ≡ found p m
    → r ≡ found p m
or_else_found (found q k) later p m answer n e h = h
or_else_found absent later p m answer n e h = absurd (n e)
or_else_found error later p m answer n e h = h

first_hit-Precedes :
    (look later : Bytes → Option Found) (ds : List Bytes) (p : Bytes) (m : Mode)
    → ((d : Bytes) → look d ≢ some absent)
    → or_else (first_hit look ds) (first_hit later ds) ≡ found p m
    → Precedes look later ds (found p m)
first_hit-Precedes look later ds p m n h = elim (first_hit-IsFirst look ds) [
  | inl (a, e) ↦
      from_later look later ds p m a (sym (ap (λ r. or_else r (first_hit later ds)) e) ∙ h)
  | inr f ↦ inl (
      subst (IsFirst look ds)
        (or_else_found (first_hit look ds) (first_hit later ds) p m (look f.dir) (n f.dir) f.answers
          h)
        f)
]

-- Where a file is found for a service whose descriptor and name have at most NAME_MAX bytes, it is the
-- one in the first directory of the path list that has a file for the descriptor, or no directory has
-- one and it is that in the first directory with a file for the name.
pub find_service-Precedes :
    (fs : FileSystem) (with_statbuf : Bool) (size : ℕ) (path_list descriptor name p : Bytes)
    (m : Mode)
    → length descriptor ≤ name_max
    → length name ≤ name_max
    → find_service fs with_statbuf size path_list descriptor name ≡ found p m
    → Precedes
        (look_up fs with_statbuf size descriptor)
        (look_up fs with_statbuf size name)
        (directories path_list)
        (found p m)
unfolding find_service
find_service-Precedes fs with_statbuf size path_list descriptor name p m hd hn h =
    let ed = find_file-directories fs with_statbuf size path_list descriptor hd in
    let en = find_file-directories fs with_statbuf size path_list name hn in
    first_hit-Precedes (look_up fs with_statbuf size descriptor) (look_up fs with_statbuf size name)
      (directories path_list) p m (look_up_lem fs with_statbuf size descriptor)
      (sym (
          ap (λ r. or_else r (find_file fs with_statbuf size path_list name)) ed
          ∙ ap
              (λ r.
                or_else
                  (first_hit (look_up fs with_statbuf size descriptor) (directories path_list)) r)
              en)
        ∙ h)

with_config_user-user :
    (r : Option (ParsedCommand × Option Bytes)) (c cmd : ParsedCommand) (user : Bytes)
    → r ≡ some (c, some user)
    → with_config_user r ≡ some cmd
    → (cmd.username ≡ some user) × (qrexec_cmd_use_fork_server (some cmd) ≡ not cmd.nogui)
unfolding with_config_user qrexec_cmd_use_fork_server
with_config_user-user none c cmd user e h = cc
with_config_user-user (some (k, none)) c cmd user e h = cc
with_config_user-user (some (k, some u)) c cmd user e h = ground arith

-- Where the configuration of a command sets a user and `load_service_config_v2` accepts it, the command
-- has that user, and it goes to the fork server unless `nogui` is set.
pub load_service_config_v2-user :
    (fs : FileSystem) (config_path descriptor name user : Bytes) (given c cmd : ParsedCommand)
    → load_service_config_raw fs config_path descriptor name given ≡ some (c, some user)
    → load_service_config_v2 fs config_path descriptor name given ≡ some cmd
    → (cmd.username ≡ some user) × (qrexec_cmd_use_fork_server (some cmd) ≡ not cmd.nogui)
unfolding load_service_config_v2
load_service_config_v2-user fs config_path descriptor name user given c cmd =
    with_config_user-user (load_service_config_raw fs config_path descriptor name given) c cmd user
