-- ===== src/Api/Count.antt =====
-- How many descriptors are aliases of one shared record.
use wepoll_ex.Prelude.{
  ℕ, ◌+◌, ◌<◌, ◌≡◌, refl, ◌∙◌, ap, fun_ext, some, List, [], ◌∷◌, arith, ◌==◌, if◌then◌else◌, update,
  total, total-update, total-pos, total-zero,
}
use wepoll_ex.Prelude.Int.{pos}
use wepoll_ex.Api.Table.{
  Entry, Table, bucket, bucket_count, find_in, find_locked, insert_locked, remove_from,
  unlink_locked,
}

abbrev pub aliases_in : ℕ → List Entry → ℕ
aliases_in s [] = 0
aliases_in s (e ∷ es) = (if s == e.shared then 1 else 0) + aliases_in s es

pub aliases_of : ℕ → Table → ℕ
aliases_of s t = total bucket_count (λ b. aliases_in s (t.buckets b))

bucket-lt : (fd : ℕ) → bucket fd < bucket_count
bucket-lt fd = omega arith

aliases_in-update :
    (s b : ℕ) (f : ℕ → List Entry) (es : List Entry)
    → (λ (k : ℕ). aliases_in s (update f b es k))
      ≡ update (λ k. aliases_in s (f k)) b (aliases_in s es)
aliases_in-update s b f es = fun_ext λ k. ground arith

total_with :
    (s fd : ℕ) (f : ℕ → List Entry) (es : List Entry)
    → total bucket_count (λ b. aliases_in s (update f (bucket fd) es b))
        + aliases_in s (f (bucket fd))
      ≡ total bucket_count (λ b. aliases_in s (f b)) + aliases_in s es
total_with s fd f es =
    ap (λ g. total bucket_count g + aliases_in s (f (bucket fd)))
      (aliases_in-update s (bucket fd) f es)
    ∙ total-update bucket_count (λ b. aliases_in s (f b)) (bucket fd) (aliases_in s es)
        (bucket-lt fd)

pub aliases_of-insert_locked :
    (s s' fd : ℕ) (t : Table)
    → aliases_of s (insert_locked s' fd t) ≡ (if s == s' then 1 else 0) + aliases_of s t
unfolding aliases_of insert_locked
aliases_of-insert_locked s s' fd t =
    let e : Entry = record { fd = fd; shared = s' } in
    omega (arith, total_with s fd t.buckets (e ∷ t.buckets (bucket fd)))

aliases_in-remove_from :
    (s fd : ℕ) (es : List Entry) (e : Entry)
    → find_in fd es ≡ some e
    → aliases_in s (remove_from fd es) + (if s == e.shared then 1 else 0) ≡ aliases_in s es
aliases_in-remove_from s fd [] e h = absurd (cc)
aliases_in-remove_from s fd (x ∷ es) e h = ground (arith, aliases_in-remove_from s fd es e)

pub aliases_of-unlink_locked :
    (s fd : ℕ) (t : Table) (e : Entry)
    → find_locked (pos fd) t ≡ some e
    → aliases_of s (unlink_locked fd t) + (if s == e.shared then 1 else 0) ≡ aliases_of s t
unfolding aliases_of unlink_locked find_locked
aliases_of-unlink_locked s fd t e h =
    let chain = t.buckets (bucket fd) in
    let found : find_in fd chain ≡ some e = ground arith in
    omega (
      arith,
      total_with s fd t.buckets (remove_from fd chain),
      aliases_in-remove_from s fd chain e found,
    )

aliases_in-pos :
    (fd : ℕ) (es : List Entry) (e : Entry) → find_in fd es ≡ some e → 0 < aliases_in e.shared es
aliases_in-pos fd [] e h = absurd (cc)
aliases_in-pos fd (x ∷ es) e h = ground (arith, aliases_in-pos fd es e)

pub aliases_of-pos :
    (fd : ℕ) (t : Table) (e : Entry) → find_locked (pos fd) t ≡ some e → 0 < aliases_of e.shared t
unfolding aliases_of find_locked
aliases_of-pos fd t e h =
    total-pos bucket_count _ (bucket fd) (bucket-lt fd)
      (aliases_in-pos fd (t.buckets (bucket fd)) e (ground arith))

-- `aliases_of` reads the buckets alone.
pub aliases_of-buckets :
    (s : ℕ) (t u : Table) → t.buckets ≡ u.buckets → aliases_of s t ≡ aliases_of s u
unfolding aliases_of
aliases_of-buckets s t u e = rw e refl

pub aliases_of-empty : (s : ℕ) (t : Table) → ((b : ℕ) → t.buckets b ≡ []) → aliases_of s t ≡ 0
unfolding aliases_of
aliases_of-empty s t h = total-zero bucket_count _ (λ b. rw (h b) refl)
