-- ===== src/Port/Classes/Filter.antt =====
-- What the filters of readiness classes of src/wepoll_ex_port.c leave.
use wepoll_ex.Prelude.{ℕ, ◌^◌, ◌<◌, ◌≡◌, refl, ap, ◌∙◌, Bool, ◌&&◌, not, arith, bit_and}
use wepoll_ex.Bits.Masks.{meets, meets-without, meets-without_self}
use wepoll_ex.Afd.{writable}
use wepoll_ex.Port.Classes.{
  Classes, minus, read_events, terminal_events, without_if, readiness_classes, filter_classes,
}

-- The filter takes away the events of the denied classes and leaves those of the others.
pub readiness_classes-filter_classes :
    (delivered : ℕ) (denied : Classes)
    → readiness_classes (filter_classes delivered denied)
      ≡ minus (readiness_classes delivered) denied
unfolding readiness_classes filter_classes
readiness_classes-filter_classes delivered denied =
    λ i. record { read = read i; write = write i; terminal = terminal i }
  where
    r : ℕ
    r = without_if denied.read read_events delivered

    w : ℕ
    w = without_if denied.write writable r

    self :
        (test : Bool) (mask x : ℕ)
        → mask < 2 ^ 32
        → meets (without_if test mask x) mask ≡ (meets x mask && not test)
    self test mask x h = ground (arith, meets-without_self x mask h)

    apart :
        (test : Bool) (mask x n : ℕ)
        → mask < 2 ^ 32
        → n < 2 ^ 32
        → bit_and mask n ≡ 0
        → meets (without_if test mask x) n ≡ meets x n
    apart test mask x n h l d = ground (arith, meets-without x mask n h l d)

    read :
        meets (filter_classes delivered denied) read_events
        ≡ (meets delivered read_events && not denied.read)
    read =
        apart denied.terminal terminal_events w read_events (omega arith) (omega arith) refl
        ∙ apart denied.write writable r read_events (omega arith) (omega arith) refl
        ∙ self denied.read read_events delivered (omega arith)

    write :
        meets (filter_classes delivered denied) writable
        ≡ (meets delivered writable && not denied.write)
    write =
        apart denied.terminal terminal_events w writable (omega arith) (omega arith) refl
        ∙ self denied.write writable r (omega arith)
        ∙ ap (λ b. b && not denied.write)
            (apart denied.read read_events delivered writable (omega arith) (omega arith) refl)

    terminal :
        meets (filter_classes delivered denied) terminal_events
        ≡ (meets delivered terminal_events && not denied.terminal)
    terminal =
        self denied.terminal terminal_events w (omega arith)
        ∙ ap (λ b. b && not denied.terminal)
            (apart denied.write writable r terminal_events (omega arith) (omega arith) refl
              ∙ apart denied.read read_events delivered terminal_events (omega arith) (omega arith)
                  refl)
