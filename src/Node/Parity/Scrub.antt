-- ===== src/Node/Parity/Scrub.antt =====
-- The percentage that Scrub of node-agent/pkg/parity/parity.go passes to SnapRAID.
use kube_nas.Base.{String, ◌∷◌, [], ◌≡◌, refl, sym, subst, arith, if◌then◌else◌, ◌⊎◌}
use kube_nas.Base.Int.{ℤ, pos, negsuc, ◌≤ℤ◌, IsInt64}
use kube_nas.Base.Text.{decimal_ℤ, is_empty}
use kube_nas.Base.Text.Decimal.{parse_int-decimal_ℤ}
use kube_nas.Base.ParseInt.{parse_int}
use kube_nas.Cluster.Host.{HostCall}
use kube_nas.Cluster.{Cluster, Call, Trace}
use kube_nas.Node.Host.{Host}
use kube_nas.Node.Parity.{scrub_percent, scrub, run_snapraid}

-- A number from 1 to 100: the one that was asked for, or 100 where that is not in the range.
abbrev pub IsPercentOf : ℤ → ℤ → Type 0
IsPercentOf percent p =
    (pos 1 ≤ℤ p)
    × (p ≤ℤ pos 100)
    × ((p ≡ percent) ⊎ ((p ≡ pos 100) × ((percent ≤ℤ pos 0) ⊎ (pos 101 ≤ℤ percent))))

scrub_percent-IsPercentOf : (percent : ℤ) → IsPercentOf percent (scrub_percent percent)
unfolding scrub_percent
scrub_percent-IsPercentOf percent = ground arith

IsPercentOf-IsInt64 : (percent p : ℤ) → IsPercentOf percent p → IsInt64 p
IsPercentOf-IsInt64 percent (pos n) (low, high, choice) = record {
  above = omega arith;
  below = omega (arith, high);
}
IsPercentOf-IsInt64 percent (negsuc n) (low, high, choice) = absurd (omega (arith, low))

-- Whatever percentage a scrub is asked for, SnapRAID is run once, with a text that reads as a number
-- from 1 to 100: the number that was asked for, or 100 where this is not in the range.
pub scrub-IsPercentOf :
    {F : Type 0} (C : Cluster F) (H : Host F) (conf_path : String) (percent : ℤ) (t : Trace F)
    → (path : String) × (text : String) × ((scrub C H conf_path percent t).1
        ≡ Call.now
          ∷ Call.host (HostCall.run "snapraid" ("-c" ∷ path ∷ "scrub" ∷ "-p" ∷ text ∷ []))
          ∷ Call.now
          ∷ t)
      × IsPercentOf percent (parse_int text)
unfolding scrub run_snapraid
scrub-IsPercentOf C H conf_path percent t = (
  if is_empty conf_path then "/etc/snapraid/snapraid.conf" else conf_path,
  decimal_ℤ (scrub_percent percent),
  refl,
  subst (IsPercentOf percent)
      (sym (
        parse_int-decimal_ℤ (scrub_percent percent) (
          IsPercentOf-IsInt64 percent (scrub_percent percent) (scrub_percent-IsPercentOf percent))))
      (scrub_percent-IsPercentOf percent),
)
