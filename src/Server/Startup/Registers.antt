-- ===== src/Server/Startup/Registers.antt =====
-- The order of the calls that `main` of watdfs_server.cpp makes on the RPC library.
use dbs_assignment.Prelude.{
  ◌≡◌, ◌⊎◌, inl, inr, Bool-cases, Option, refl, ap, true, false, List, [], ◌∷◌, ◌++◌, String, some,
  if◌then◌else◌,
}
use dbs_assignment.Prelude.Int.{ℤ, pos, is_neg}
use dbs_assignment.Errno.{not_init, function_failure}
use dbs_assignment.Rpc.Procedures.{
  Procedure, getattr, mknod, open_file, release, read, write, truncate, fsync, utimensat, lock,
  unlock, procedure_name, registered_types,
}
use dbs_assignment.Server.Startup.{ServerLibrary, register_all, main}

-- The procedures are registered one after the other, each under its name, its types and its own
-- handler, and no call fails; `ret` and `ret'` are the codes of the calls before and of the last one.
pub data Registered {R : Type 0} (lib : ServerLibrary R)
    : List Procedure → ℤ → R → ℤ → R → Type 0 where
  all_done : (ret : ℤ) (r : R) → Registered lib [] ret r ret r
  one_done :
      (p : Procedure) (ps : List Procedure) (ret code last : ℤ) (r r' r'' : R)
      → lib.register (procedure_name p) (registered_types p) p r ≡ (code, r')
      → is_neg code ≡ false
      → Registered lib ps code r' last r''
      → Registered lib (p ∷ ps) ret r last r''

module _ {R : Type 0} (lib : ServerLibrary R) where
  -- A run of registrations is accepted as a whole, or up to a procedure that is not.
  abbrev pub Accepts : List Procedure → ℤ → R → ℤ → R → Type 0
  Accepts ps ret r last r' =
      Registered lib ps ret r last r' × (register_all lib ps ret r ≡ ((false, last), r'))

  abbrev pub StopsAt : List Procedure → ℤ → R → ℤ → R → Type 0
  StopsAt ps ret r failure r'' =
      (before : List Procedure) × (p : Procedure) × (behind : List Procedure) × (last : ℤ)
      × (r' : R) × (ps ≡ before ++ p ∷ behind)
      × Registered lib before ret r last r'
      × (lib.register (procedure_name p) (registered_types p) p r' ≡ (failure, r''))
      × (is_neg failure ≡ true)

  register_all-cases :
      (ps : List Procedure) (ret : ℤ) (r : R)
      → ((last : ℤ) × (r' : R) × Accepts ps ret r last r')
        ⊎ ((failure : ℤ) × (r'' : R) × StopsAt ps ret r failure r''
            × (register_all lib ps ret r ≡ ((true, failure), r'')))
  unfolding register_all
  register_all-cases [] ret r = inl (ret, r, (all_done ret r, refl))
  register_all-cases (p ∷ ps) ret r =
      let (code, r') = lib.register (procedure_name p) (registered_types p) p r in
      elim (Bool-cases (is_neg code)) [
        | inl bad ↦
            inr (code, r', ([], p, ps, ret, r, refl, all_done ret r, refl, bad), rw bad refl)
        | inr ok ↦ elim (register_all-cases ps code r') [
          | inl (last, r'', (done, e)) ↦
              inl (last, r'', (one_done p ps ret code last r r' r'' refl ok done, rw ok e))
          | inr (failure, r3, (before, q, behind, last, r'', split, done, f, bad), e) ↦ inr (
            failure,
            r3,
            (
              p ∷ before,
              q,
              behind,
              last,
              r'',
              ap (λ l. p ∷ l) split,
              one_done p before ret code last r r' r'' refl ok done,
              f,
              bad,
            ),
            rw ok e,
          )
        ]
      ]

  -- Every procedure that the client calls.
  abbrev pub eleven : List Procedure
  eleven =
      getattr ∷ mknod ∷ open_file ∷ release ∷ read ∷ write ∷ truncate ∷ fsync ∷ utimensat ∷ lock
      ∷ unlock ∷ []

  -- The three ways in which `main` ends.
  abbrev pub Outcome : String → R → ℤ × Option String × R → Type 0
  Outcome dir r result =
      ((is_neg (lib.server_init r).0 ≡ true)
        × (result ≡ (not_init, some dir, (lib.server_init r).1)))
      ⊎ ((last : ℤ) × (r' : R) × (is_neg (lib.server_init r).0 ≡ false)
          × Registered lib eleven (pos 0) (lib.server_init r).1 last r'
          × (result ≡ (
            if is_neg (lib.execute r').0 then function_failure else last,
            some dir,
            (lib.execute r').1,
          )))
      ⊎ ((failure : ℤ) × (r'' : R) × (is_neg (lib.server_init r).0 ≡ false)
          × StopsAt eleven (pos 0) (lib.server_init r).1 failure r''
          × (result ≡ (failure, some dir, r'')))

  -- With one argument, and whatever the library does, `main` keeps the argument as the directory and
  -- ends in one of three ways: the library cannot be initialised, and it returns NOT_INIT; or all
  -- eleven procedures are registered in turn, each under its name, types and handler, the library's
  -- loop is run, and it returns FUNCTION_FAILURE if that fails and the code of the last registration if
  -- not; or those before some procedure are registered, that one fails, and it returns the failure's
  -- code with the library as that call left it.
  pub main-Outcome :
      (program dir : String) (r : R) → Outcome dir r (main lib (program ∷ dir ∷ []) r)
  unfolding main
  main-Outcome program dir r = elim (Bool-cases (is_neg (lib.server_init r).0)) [
    | inl bad ↦ inl (bad, rw bad refl)
    | inr ok ↦ elim (register_all-cases eleven (pos 0) (lib.server_init r).1) [
      | inl (last, r', (done, e)) ↦ inr (inl (last, r', ok, done, rw (ok, e) refl))
      | inr (failure, r'', stop, e) ↦ inr (inr (failure, r'', ok, stop, rw (ok, e) refl))
    ]
  ]
