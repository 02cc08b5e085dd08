-- ===== src/Api/Lookup.antt =====
-- What a descriptor names: insertion, removal and the choice of a new number.
use wepoll_ex.Prelude.{
  ℕ, ◌≤◌, ◌<◌, ◌≡◌, refl, sym, ap, subst, none, some, List, [], ◌∷◌, arith, ◌==◌, if◌then◌else◌,
}
use wepoll_ex.Prelude.Int.{ℤ, pos, negsuc}
use wepoll_ex.Api.Table.{
  Entry, Table, find_in, find_locked, insert_locked, unlink_locked, remove_from, bucket, int_max,
}

-- The chain of bucket `b`: positive numbers that belong there, each once.
abbrev pub Bucket : ℕ → List Entry → Type 0
Bucket b [] = Unit {0}
Bucket b (e ∷ es) =
    (0 < e.fd) × (e.fd ≤ int_max) × (bucket e.fd ≡ b) × (find_in e.fd es ≡ none) × Bucket b es

pub record IsTable (t : Table) : Type 0 where
  pub next_positive : 0 < t.next_fd
  pub next_small : t.next_fd ≤ int_max
  pub chains : (b : ℕ) → Bucket b (t.buckets b)

pub find_in-fd : (fd : ℕ) (es : List Entry) (e : Entry) → find_in fd es ≡ some e → e.fd ≡ fd
find_in-fd fd [] e h = absurd (cc)
find_in-fd fd (x ∷ es) e h = ground (arith, find_in-fd fd es e)

pub find_in-remove_from :
    (b fd x : ℕ) (es : List Entry)
    → Bucket b es
    → find_in x (remove_from fd es) ≡ (if fd == x then none else find_in x es)
find_in-remove_from b fd x [] k = ground arith
find_in-remove_from b fd x (e ∷ es) k = ground (arith, find_in-remove_from b fd x es k.4)

remove_from-Bucket : (b fd : ℕ) (es : List Entry) → Bucket b es → Bucket b (remove_from fd es)
remove_from-Bucket b fd [] k = tt
remove_from-Bucket b fd (e ∷ es) k =
    ground (arith, remove_from-Bucket b fd es k.4, find_in-remove_from b fd e.fd es k.4)

-- `epfd_find_locked` after `epfd_insert_locked`.
pub find-insert_locked :
    (s fd x : ℕ) (t : Table)
    → 0 < fd
    → find_locked (pos x) (insert_locked s fd t)
      ≡ (if fd == x then some (record { fd = fd; shared = s }) else find_locked (pos x) t)
unfolding find_locked insert_locked
find-insert_locked s fd x t h = ground arith

-- `epfd_find_locked` after `epfd_unlink_locked`.
pub find-unlink_locked :
    (fd x : ℕ) (t : Table)
    → IsTable t
    → find_locked (pos x) (unlink_locked fd t) ≡ (if fd == x then none else find_locked (pos x) t)
unfolding find_locked unlink_locked
find-unlink_locked fd x t v =
    ground
      (arith, find_in-remove_from (bucket fd) fd x (t.buckets (bucket fd)) (v.chains (bucket fd)))

pub insert_locked-IsTable :
    (s fd : ℕ) (t : Table)
    → IsTable t
    → 0 < fd
    → fd ≤ int_max
    → find_locked (pos fd) t ≡ none
    → IsTable (insert_locked s fd t)
unfolding find_locked insert_locked
insert_locked-IsTable s fd t v positive small new = record {
  next_positive = v.next_positive;
  next_small = v.next_small;
  chains = λ b. ground (arith, v.chains b);
}

pub unlink_locked-IsTable : (fd : ℕ) (t : Table) → IsTable t → IsTable (unlink_locked fd t)
unfolding unlink_locked
unlink_locked-IsTable fd t v = record {
  next_positive = v.next_positive;
  next_small = v.next_small;
  chains = λ b. ground (arith, v.chains b, remove_from-Bucket b fd (t.buckets b));
}

-- A search reads the buckets alone.
pub find-buckets :
    (fd : ℤ) (t u : Table) → t.buckets ≡ u.buckets → find_locked fd t ≡ find_locked fd u
unfolding find_locked
find-buckets (negsuc n) t u e = refl
find-buckets (pos fd) t u e = rw e refl

-- What a search finds has the number that was looked for, a positive one.
pub find-pos :
    (fd : ℤ) (t : Table) (e : Entry)
    → find_locked fd t ≡ some e
    → (find_locked (pos e.fd) t ≡ some e) × (fd ≡ pos e.fd)
unfolding find_locked
find-pos (negsuc n) t e h = absurd (cc)
find-pos (pos fd) t e h =
    let same : e.fd ≡ fd = ground (arith, find_in-fd fd (t.buckets (bucket fd)) e) in
    (subst (λ n. find_locked (pos n) t ≡ some e) (sym same) h, ap pos (sym same))

-- The two list operations leave the records alone.
pub insert_locked-shareds : (s fd : ℕ) (t : Table) → (insert_locked s fd t).shareds ≡ t.shareds
unfolding insert_locked
insert_locked-shareds s fd t = refl

pub unlink_locked-shareds : (fd : ℕ) (t : Table) → (unlink_locked fd t).shareds ≡ t.shareds
unfolding unlink_locked
unlink_locked-shareds fd t = refl
