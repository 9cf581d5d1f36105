-- ===== src/Health/Ordering.antt =====
-- internal/health/alerts.go: the alerts are those of the deductions, in the promised order.
use opensourcebackup.Prelude.{
  All, All-append, Bool, List, [], arith, count_where, false, length, refl, subst, sym, true, ℕ,
  ◌++◌, ◌+◌, ◌∷◌, ◌≡◌, ◌≤◌,
}
use opensourcebackup.Health.Alerts.{
  Alert, AlertSummary, Severity, alert_of, alerts_from_score, collect, count_alert, critical, info,
  shelf, summarize, summarize_from, warning,
}
use opensourcebackup.Health.Penalties.{IsRule, calculate-IsRule, is_known}
use opensourcebackup.Health.Rules.{priced}
use opensourcebackup.Health.Score.{Deduction, Input, ScoreResult, calculate}
use opensourcebackup.Prelude.Table.{count_where-append}

abbrev rank : Severity → ℕ
rank critical = 0
rank warning = 1
rank info = 2

-- Critical before warning before info.
abbrev pub IsOrdered : List Alert → Type 0
IsOrdered [] = Unit {0}
IsOrdered (a ∷ as_) = All (λ b. rank a.severity ≤ rank b.severity) as_ × IsOrdered as_

abbrev Graded : Severity → List Alert → Type 0
Graded s = All (λ a. a.severity ≡ s)

above :
    (a : Alert) (s : Severity) (bs : List Alert)
    → rank a.severity ≤ rank s
    → Graded s bs
    → All (λ b. rank a.severity ≤ rank b.severity) bs
above a s [] h g = tt
above a s (b ∷ bs) h g = (subst (λ t. rank a.severity ≤ rank t) (sym g.0) h, above a s bs h g.1)

append-IsOrdered :
    (s : Severity) (as_ bs : List Alert)
    → Graded s as_
    → IsOrdered bs
    → ((a : Alert) → a.severity ≡ s → All (λ b. rank a.severity ≤ rank b.severity) bs)
    → IsOrdered (as_ ++ bs)
append-IsOrdered s [] bs g o h = o
append-IsOrdered s (a ∷ as_) bs g o h = (
  All-append (λ b. rank a.severity ≤ rank b.severity) as_ bs
      (above a s as_ (subst (λ t. rank a.severity ≤ rank t) g.0 (omega arith)) g.1) (h a g.0),
  append-IsOrdered s as_ bs g.1 o h,
)

Graded-IsOrdered : (s : Severity) (as_ : List Alert) → Graded s as_ → IsOrdered as_
Graded-IsOrdered s [] g = tt
Graded-IsOrdered s (a ∷ as_) g = (
  above a s as_ (subst (λ t. rank a.severity ≤ rank t) g.0 (omega arith)) g.1,
  Graded-IsOrdered s as_ g.1,
)

shelves-IsOrdered :
    (cs ws is : List Alert)
    → Graded critical cs
    → Graded warning ws
    → Graded info is
    → IsOrdered (cs ++ (ws ++ is))
shelves-IsOrdered cs ws is gc gw gi =
    append-IsOrdered critical cs (ws ++ is) gc
      (append-IsOrdered warning ws is gw (Graded-IsOrdered info is gi)
        (λ a e. above a info is (rw e (omega arith)) gi))
      (λ a e.
        All-append (λ b. rank a.severity ≤ rank b.severity) ws is
          (above a warning ws (rw e (omega arith)) gw) (above a info is (rw e (omega arith)) gi))

-- An alert with a known code goes to the list of its severity.
alert_of-shelf : (d : Deduction) → is_known d.code ≡ true → (alert_of d).severity ≡ shelf d
unfolding alert_of
alert_of-shelf d k = ground arith

Graded-snoc :
    (s : Severity) (as_ : List Alert) (a : Alert)
    → Graded s as_
    → a.severity ≡ s
    → Graded s (as_ ++ a ∷ [])
Graded-snoc s as_ a g e = All-append (λ b. b.severity ≡ s) as_ (a ∷ []) g (e, tt)

abbrev Sorts : List Deduction → Type 0
Sorts ds =
    (cs ws is : List Alert)
    → Graded critical cs
    → Graded warning ws
    → Graded info is
    → IsOrdered (collect cs ws is ds)

collect_step :
    (d : Deduction) (ds : List Deduction) (s : Severity)
    → shelf d ≡ s
    → (alert_of d).severity ≡ s
    → Sorts ds
    → Sorts (d ∷ ds)
unfolding collect
collect_step d ds critical e a rest cs ws is gc gw gi =
    rw (e, IsOrdered, collect) (rest _ ws is (Graded-snoc critical cs _ gc a) gw gi)
collect_step d ds warning e a rest cs ws is gc gw gi =
    rw (e, IsOrdered, collect) (rest cs _ is gc (Graded-snoc warning ws _ gw a) gi)
collect_step d ds info e a rest cs ws is gc gw gi =
    rw (e, IsOrdered, collect) (rest cs ws _ gc gw (Graded-snoc info is _ gi a))

collect-Sorts : (ds : List Deduction) → All IsRule (priced ds) → Sorts ds
unfolding collect
collect-Sorts [] k = λ cs ws is gc gw gi. shelves-IsOrdered cs ws is gc gw gi
collect-Sorts (d ∷ ds) k =
    collect_step d ds (shelf d) refl (alert_of-shelf d k.0.1) (collect-Sorts ds k.1)

-- The alerts of a score that the calculator returns are ordered by severity, critical first and
-- info last.
pub alerts_from_score-IsOrdered :
    (wall : ℕ) (input : Input) → IsOrdered (alerts_from_score (calculate wall input))
unfolding alerts_from_score
alerts_from_score-IsOrdered wall input =
    collect-Sorts _ (calculate-IsRule wall input) [] [] [] tt tt tt

module _ (q : Alert → Bool) where
  count-collect :
      (cs ws is : List Alert) (ds : List Deduction)
      → count_where q (collect cs ws is ds)
        ≡ count_where q cs
          + count_where q ws
          + count_where q is
          + count_where (λ d. q (alert_of d)) ds
  unfolding collect
  count-collect cs ws is [] =
      omega (arith, count_where-append q cs (ws ++ is), count_where-append q ws is)
  count-collect cs ws is (d ∷ ds) = ground (
    arith,
    count-collect (cs ++ alert_of d ∷ []) ws is ds,
    count-collect cs (ws ++ alert_of d ∷ []) is ds,
    count-collect cs ws (is ++ alert_of d ∷ []) ds,
    count_where-append q cs (alert_of d ∷ []),
    count_where-append q ws (alert_of d ∷ []),
    count_where-append q is (alert_of d ∷ []),
  )

  -- Whatever is counted, the alerts are one for each deduction, known or not: none is lost, made up
  -- or doubled by the three lists.
  pub count_where-alerts_from_score :
      (r : ScoreResult)
      → count_where q (alerts_from_score r) ≡ count_where (λ d. q (alert_of d)) r.deductions
  unfolding alerts_from_score
  count_where-alerts_from_score r = omega (arith, count-collect [] [] [] r.deductions)

abbrev pub is_critical : Alert → Bool
is_critical a = elim a.severity [ critical ↦ true | _ ↦ false ]

abbrev pub is_warning : Alert → Bool
is_warning a = elim a.severity [ warning ↦ true | _ ↦ false ]

abbrev pub is_info : Alert → Bool
is_info a = elim a.severity [ info ↦ true | _ ↦ false ]

summarize_from_lem :
    (s : AlertSummary) (alerts : List Alert)
    → summarize_from s alerts ≡ record {
      total = s.total;
      critical = s.critical + count_where is_critical alerts;
      warning = s.warning + count_where is_warning alerts;
      info = s.info + count_where is_info alerts;
    }
unfolding summarize_from count_alert
summarize_from_lem s [] = ground arith
summarize_from_lem s (a ∷ alerts) = ground (arith, summarize_from_lem (count_alert s a) alerts)

-- The summary counts the alerts of each severity, and the three counts add up to the total.
pub summarize_lem :
    (alerts : List Alert)
    → let s = summarize alerts in
      (s.critical ≡ count_where is_critical alerts)
      × (s.warning ≡ count_where is_warning alerts)
      × (s.info ≡ count_where is_info alerts)
      × (s.critical + s.warning + s.info ≡ s.total)
unfolding summarize
summarize_lem alerts = ground (
  arith,
  summarize_from_lem (record { total = length alerts; critical = 0; warning = 0; info = 0 }) alerts,
  severities alerts,
)
  where
    severities :
        (as_ : List Alert)
        → count_where is_critical as_ + count_where is_warning as_ + count_where is_info as_
          ≡ length as_
    severities [] = refl
    severities (a ∷ as_) = ground (arith, severities as_)
