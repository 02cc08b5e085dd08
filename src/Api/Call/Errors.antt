-- ===== src/Api/Call/Errors.antt =====
-- The clean-up that `epfd_put` may have to do leaves the caller's errors alone.
use wepoll_ex.Prelude.{ℕ, ◌≡◌, inl, inr, refl, sym, subst, true, false, some, arith, Option-cases}
use wepoll_ex.Errno.State.{ErrorState, get_last_error_info, restore_last_error_info}
use wepoll_ex.Errno.Channel.{restore-errno}
use wepoll_ex.Api.Table.{put_locked}
use wepoll_ex.Api.Port.{PortApi}
use wepoll_ex.Api.Call.{Machine, put, put_destroy, destroy}

-- A caller reads the same errors in both states.
abbrev pub SameErrors : ErrorState → ErrorState → Type 0
SameErrors a b = (get_last_error_info b ≡ get_last_error_info a) × (b.errno ≡ a.errno)

module _ {W : Type 0} (api : PortApi W) where
  put_destroy-SameErrors :
      (s : ℕ) (m m' : Machine W) → put_destroy api s m ≡ some m' → SameErrors m.err m'.err
  unfolding put_destroy restore_last_error_info
  put_destroy-SameErrors s m m' e = elim (Option-cases (destroy api s m)) [
    | inl gone ↦ absurd (ground (arith, gone))
    | inr ((r, m1), done) ↦
        let same : m'.err ≡ record (restore_last_error_info (get_last_error_info m.err) m1.err) {
          errno = m.err.errno;
        } =
          ground (arith, done, e) in
        subst (λ x. SameErrors m.err x) (sym same) (restore-errno m.err m1.err)
  ]

  -- Whatever errno and the supplementary record of the calling thread are, `epfd_put` leaves what the
  -- caller reads of both as it is, also if it runs the teardown of the port and that fails.
  pub put-SameErrors : (s : ℕ) (m m' : Machine W) → put api s m ≡ some m' → SameErrors m.err m'.err
  unfolding put
  put-SameErrors s m m' e = elim (Option-cases (put_locked s m.table)) [
    | inl gone ↦ absurd (ground (arith, gone))
    | inr ((true, t), last) ↦
        put_destroy-SameErrors s (record m { table = t }) m' (ground (arith, e, last))
    | inr ((false, t), more) ↦
        let same : m'.err ≡ m.err = ground (arith, e, more) in
        subst (λ x. SameErrors m.err x) (sym same) (refl, refl)
  ]
