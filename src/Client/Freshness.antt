-- ===== src/Client/Freshness.antt =====
-- What `cli_freshness_check` of watdfs_client.cpp decides, and what it leaves of the client.
use native.Mathlib.Decide.{dec_lt}
use dbs_assignment.Prelude.{
  ℕ, ◌+◌, ◌≤◌, ◌<◌, ◌≡◌, ◌↔◌, ◌⊎◌, inl, refl, true, some, String, arith, if◌then◌else◌, ◌==◌,
}
use dbs_assignment.Prelude.Int.{ℤ, pos, negsuc, is_neg}
use dbs_assignment.Prelude.Dict.{lookup}
use dbs_assignment.System.{Stat, st_mtime}
use dbs_assignment.Client.{Env, FileMeta, World, get_full_path}
use dbs_assignment.Client.Monad.{returned, next}
use dbs_assignment.Client.Stubs.{copy_getattr}
use dbs_assignment.Client.Runs.{with_meta, is_open-found}
use dbs_assignment.Client.Cache.{compare_times, cli_freshness_check}

module _ {D S : Type 0} (env : Env D S) (path : String) where
  open env use {os, uninit}

  pub check-within :
      (w : World D S) (m : FileMeta) (now : ℕ) (d : D)
      → lookup path w.status.open_files_status ≡ some m
      → os.time w.disk ≡ (now, d)
      → now < m.tc + w.status.cache_interval
      → cli_freshness_check env path w ≡ next (pos 0) (record w { disk = d })
  unfolding cli_freshness_check
  check-within w m now d found clock fresh =
      rw (clock, is_open-found path w.status m found) (ground arith)

  pub compare_times-next :
      (w : World D S) (local remote : Stat) (d : D) (s : S)
      → os.stat (get_full_path path w.status) uninit.stat_value w.disk ≡ (pos 0, local, d)
      → copy_getattr env path uninit.stat_value w.remote ≡ (pos 0, remote, s)
      → compare_times env path w
        ≡ next
            (if st_mtime local == st_mtime remote then pos 0 else negsuc 0)
            (record w { disk = d; remote = s })
  unfolding compare_times
  compare_times-next w local remote d s e f = rw (e, f) refl

  compare_times-returned :
      (w : World D S) (code stat_ret : ℤ) (local remote : Stat) (d : D) (s : S)
      → os.stat (get_full_path path w.status) uninit.stat_value w.disk ≡ (stat_ret, local, d)
      → copy_getattr env path uninit.stat_value w.remote ≡ (code, remote, s)
      → is_neg code ≡ true
      → compare_times env path w ≡ returned code (record w { disk = d; remote = s })
  unfolding compare_times
  compare_times-returned w code stat_ret local remote d s e f bad = rw (e, f, bad) refl

  module _ (w : World D S) (m : FileMeta) (now : ℕ) (d : D)
      (found : lookup path w.status.open_files_status ≡ some m) (clock : os.time w.disk ≡ (now, d))
      (late : m.tc + w.status.cache_interval ≤ now) where
    pub check-after :
        (local remote : Stat) (d' d'' : D) (s : S) (now' : ℕ)
        → os.stat (get_full_path path w.status) uninit.stat_value d ≡ (pos 0, local, d')
        → copy_getattr env path uninit.stat_value w.remote ≡ (pos 0, remote, s)
        → os.time d' ≡ (now', d'')
        → cli_freshness_check env path w
          ≡ next
              (if st_mtime local == st_mtime remote then pos 0 else negsuc 0)
              (with_meta path (record m { tc = now' }) (record w { disk = d''; remote = s }))
    unfolding cli_freshness_check
    check-after local remote d' d'' s now' e f g =
        rw (clock, is_open-found path w.status m found)
          (ground (arith, compare_times-next (record w { disk = d }) local remote d' s e f))

    pub check-unreachable :
        (code : ℤ) (local buf : Stat) (stat_ret : ℤ) (d' : D) (s : S)
        → os.stat (get_full_path path w.status) uninit.stat_value d ≡ (stat_ret, local, d')
        → copy_getattr env path uninit.stat_value w.remote ≡ (code, buf, s)
        → is_neg code ≡ true
        → cli_freshness_check env path w ≡ returned code (record w { disk = d'; remote = s })
    unfolding cli_freshness_check
    check-unreachable code local buf stat_ret d' s e f bad =
        rw (clock, is_open-found path w.status m found)
          (ground (
            arith,
            compare_times-returned (record w { disk = d }) code stat_ret local buf d' s e f bad,
          ))

  -- For a file that is open here, the check answers 0 exactly when less than the cache interval has
  -- passed since the entry's `tc`, or the modification times of the local and of the server's file
  -- agree; provided that `stat` and `copy_getattr` succeed.
  pub fresh_iff :
      (w : World D S) (m : FileMeta) (now now' : ℕ) (d d' d'' : D) (local remote : Stat) (s : S)
      → lookup path w.status.open_files_status ≡ some m
      → os.time w.disk ≡ (now, d)
      → os.stat (get_full_path path w.status) uninit.stat_value d ≡ (pos 0, local, d')
      → copy_getattr env path uninit.stat_value w.remote ≡ (pos 0, remote, s)
      → os.time d' ≡ (now', d'')
      → (c : ℤ) × (w' : World D S) × (cli_freshness_check env path w ≡ next c w')
        × ((c ≡ pos 0)
            ↔ ((now < m.tc + w.status.cache_interval) ⊎ (st_mtime local ≡ st_mtime remote)))
  fresh_iff w m now now' d d' d'' local remote s found clock e f g =
      elim (dec_lt now (m.tc + w.status.cache_interval)) [
        | yes fresh ↦ (
          pos 0,
          record w { disk = d },
          check-within w m now d found clock fresh,
          (λ _. inl fresh, λ _. refl),
        )
        | no late ↦ (
          if st_mtime local == st_mtime remote then pos 0 else negsuc 0,
          with_meta path (record m { tc = now' }) (record w { disk = d''; remote = s }),
          check-after w m now d found clock (omega arith) local remote d' d'' s now' e f g,
          ground arith,
        )
      ]
