-- ===== src/Errno/Totality.antt =====
-- What the error tables of src/wepoll_ex_errno.c promise of every code.
use Prim.Native.Nat.{ℕ}
use wepoll_ex.Prelude.{
  ◌≡◌, ◌↔◌, ◌⊎◌, inl, inr, refl, Bool, true, ◌&&◌, ◌||◌, not, List, [], ◌∷◌, arith, ◌==◌,
  if◌then◌else◌,
}
use wepoll_ex.Errno.Codes.{einval, eagain, enobufs, enomem, einprogress, ealready, eisconn}
use wepoll_ex.Errno.Mapping.{
  lookup_or, winsock_table, errno_table, errno_to_winsock, winerr_to_errno,
}

abbrev every : (ℕ × ℕ → Bool) → List (ℕ × ℕ) → Bool
every p [] = true
every p (x ∷ t) = p x && every p t

-- What holds of each entry, and of the default, holds of what a lookup finds.
lookup_or-every :
    (p : ℕ × ℕ → Bool) (k : ℕ) (t : List (ℕ × ℕ)) (d : ℕ)
    → every p t ≡ true
    → (lookup_or k t d ≡ d) ⊎ (p (k, lookup_or k t d) ≡ true)
unfolding lookup_or
lookup_or-every p k [] d h = inl refl
lookup_or-every p k ((a, b) ∷ t) d h = ground (arith, lookup_or-every p k t d)

nonzero_value : ℕ × ℕ → Bool
nonzero_value (a, b) = (a == 0) || not (b == 0)

nonzero_values : every nonzero_value errno_table ≡ true
unfolding nonzero_value errno_table
nonzero_values = refl

-- Only the code 0 is mapped to errno 0: no failure that the library maps reads as success.
pub winerr_to_errno-eq-zero : (code : ℕ) → (winerr_to_errno code ≡ 0) ↔ (code ≡ 0)
unfolding winerr_to_errno nonzero_value lookup_or errno_table
winerr_to_errno-eq-zero code = (
  λ h. ground (arith, lookup_or-every nonzero_value code errno_table einval nonzero_values),
  λ e. rw e refl,
)

-- The errno that a Winsock code is mapped back to, by the errno that it was made from.
abbrev pub back : ℕ → ℕ
back error =
    if error == einprogress || error == ealready
    then eagain
    else if error == enomem
    then enobufs
    else if error == eisconn
    then einval
    else error

comes_back : ℕ × ℕ → Bool
comes_back (a, b) = winerr_to_errno b == back a

come_back : every comes_back winsock_table ≡ true
unfolding comes_back winsock_table winerr_to_errno lookup_or errno_table
come_back = refl

-- An errno mapped to its Winsock code and back is the same errno, but for EINPROGRESS and EALREADY
-- (EAGAIN), ENOMEM (ENOBUFS) and EISCONN (EINVAL); one with no Winsock code comes back as 0.
pub winerr_to_errno-errno_to_winsock :
    (error : ℕ)
    → winerr_to_errno (errno_to_winsock error)
      ≡ (if errno_to_winsock error == 0 then 0 else back error)
unfolding comes_back errno_to_winsock
winerr_to_errno-errno_to_winsock error =
    elim (lookup_or-every comes_back error winsock_table 0 come_back) [
      | inl e ↦ rw e ((winerr_to_errno-eq-zero 0).1 refl)
      | inr h ↦ ground (arith, (winerr_to_errno-eq-zero 0).1 refl)
    ]
