-- ===== src/Port/Exclusive/Examples.antt =====
-- Two registrations of one socket, with base 7, in the claims of src/wepoll_ex_port.c.
use wepoll_ex.Prelude.{◌≡◌, refl, false, true, ◌&&◌, ◌||◌, not, arith, none, some, List, [], ◌∷◌}
use wepoll_ex.Bits.Masks.{without}
use wepoll_ex.Afd.{epollin, epollout}
use wepoll_ex.Port.Classes.{meet, minus, any_class, readiness_classes, filter_classes}
use wepoll_ex.Port.Exclusive.{
  exclusive_bucket, try_claim, leave_other_base, unlink, scan, scan_claim, release_chain,
  remove_classes, add_classes, link,
}
use wepoll_ex.Port.Exclusive.Held.{held}
use wepoll_ex.Port.Exclusive.Reports.{
  ClaimOp, claims, after, apply, no_claims, no_claims-IsExclusive, after-apart, try_claim-reports,
}

abbrev both_read : List ClaimOp
both_read = claims 1 7 epollin ∷ claims 2 7 epollin ∷ []

-- The second reader gets nothing, and a writer beside the first does.
second_is_refused : (try_claim 2 7 epollin (after both_read no_claims)).0 ≡ none
unfolding after apply try_claim exclusive_bucket without scan scan_claim release_chain
    remove_classes add_classes link leave_other_base unlink readiness_classes filter_classes
second_is_refused = refl

writer_is_granted : (try_claim 2 7 5 (after both_read no_claims)).0 ≡ some epollout
unfolding after apply try_claim exclusive_bucket without scan scan_claim release_chain
    remove_classes add_classes link leave_other_base unlink readiness_classes filter_classes
writer_is_granted = refl

first_claim : (try_claim 1 7 epollin no_claims).0 ≡ some epollin
unfolding try_claim scan release_chain add_classes link leave_other_base readiness_classes
    filter_classes
first_claim = refl

after-apart_example :
    (any_class (meet (held (after both_read no_claims) 1 7) (held (after both_read no_claims) 2 7))
      ≡ false)
    × (((held (after both_read no_claims) 1 7).terminal
          && any_class (held (after both_read no_claims) 2 7))
        ≡ false)
after-apart_example = after-apart both_read 1 2 7 (omega arith)

try_claim-reports_example :
    let h = held (try_claim 1 7 epollin no_claims).1 1 7 in
    let other = held (try_claim 1 7 epollin no_claims).1 2 7 in
    ((h.terminal || not (any_class (minus (readiness_classes epollin) h))) ≡ true)
    × (any_class (meet (readiness_classes epollin) other) ≡ false)
try_claim-reports_example =
    try_claim-reports 1 7 epollin epollin 2 no_claims no_claims-IsExclusive first_claim
      (omega arith)
