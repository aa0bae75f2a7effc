-- ===== src/Workspace/Scan/Busy.antt =====
-- The counting facts on a list of scan tasks.
use kmp_lsp.Base.{
  ℕ, zero, suc, ◌+◌, ◌≤◌, ◌<◌, ◌≡◌, refl, Option, none, some, List, [], ◌∷◌, arith, All,
}
use kmp_lsp.Workspace.Scan.{Task, Point, waiting, indexing, reported}
use kmp_lsp.Workspace.Scan.Moves.{pick, put_back}

-- 1 for a task that has not reported to the actor yet.
abbrev pub busy_point : Point → ℕ
busy_point waiting = 1
busy_point indexing = 1
busy_point reported = 0

abbrev pub busy : List Task → ℕ
busy [] = 0
busy (t ∷ ts) = busy_point t.point + busy ts

abbrev CurrentPoint : Point → ℕ → ℕ → Type 0
CurrentPoint waiting e g = e ≡ g
CurrentPoint indexing e g = e ≡ g
CurrentPoint reported e g = Unit

-- A task that has not reported was started for this generation.
abbrev pub Current : ℕ → Task → Type 0
Current g t = CurrentPoint t.point t.args.expected_generation g

abbrev pub Below : ℕ → Task → Type 0
Below g t = t.args.expected_generation < g

abbrev pub UpTo : ℕ → Task → Type 0
UpTo g t = t.args.expected_generation ≤ g

pub Below-UpTo : (g : ℕ) (ts : List Task) → All (UpTo g) ts → All (Below (suc g)) ts
Below-UpTo g [] h = tt
Below-UpTo g (t ∷ ts) (p, h) = (omega arith, Below-UpTo g ts h)

pub UpTo-mono : (g k : ℕ) (ts : List Task) → g ≤ k → All (UpTo g) ts → All (UpTo k) ts
UpTo-mono g k [] le h = tt
UpTo-mono g k (t ∷ ts) le (p, h) = (omega arith, UpTo-mono g k ts le h)

Current_point : (p : Point) (e g : ℕ) → busy_point p ≡ 0 → CurrentPoint p e g
Current_point waiting e g h = absurd (omega arith)
Current_point indexing e g h = absurd (omega arith)
Current_point reported e g h = tt

pub busy-Current : (g : ℕ) (ts : List Task) → busy ts ≡ 0 → All (Current g) ts
busy-Current g [] h = tt
busy-Current g (t ∷ ts) h =
    (Current_point t.point _ g (omega arith), busy-Current g ts (omega arith))

-- What holds of a task list holds of the picked task and of the rest, and they share its count.
abbrev pub Picked : (Task → Type 0) → ℕ → Option (Task × List Task) → Type 0
Picked P n none = Unit
Picked P n (some (t, rest)) = P t × All P rest × (n ≡ busy_point t.point + busy rest)

put_back-Picked :
    (P : Task → Type 0) (n : ℕ) (u : Task) (o : Option (Task × List Task))
    → P u
    → Picked P n o
    → Picked P (busy_point u.point + n) (put_back u o)
put_back-Picked P n u none p h = tt
put_back-Picked P n u (some (t, rest)) p (q, r, e) = (q, (p, r), omega arith)

pub pick-Picked :
    (P : Task → Type 0) (i : ℕ) (ts : List Task) → All P ts → Picked P (busy ts) (pick i ts)
unfolding pick
pick-Picked P i [] h = tt
pick-Picked P zero (u ∷ us) (p, h) = (p, h, refl)
pick-Picked P (suc i) (u ∷ us) (p, h) =
    put_back-Picked P (busy us) u (pick i us) p (pick-Picked P i us h)
