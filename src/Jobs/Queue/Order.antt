-- ===== src/Jobs/Queue/Order.antt =====
-- Ordering the jobs by age keeps what holds of each.
use cyclope_central.Base.{ℕ, List, [], ◌∷◌, All, leb, Bool-cases, inl, inr}
use cyclope_central.Models.Job.{AgentJob}
use cyclope_central.Jobs.Queue.{insert_by_age, order_by_age}

module _ {κ} (P : ℕ × AgentJob → Type κ) where
  All-insert_by_age :
      (e : ℕ × AgentJob) (jobs : List (ℕ × AgentJob))
      → P e
      → All P jobs
      → All P (insert_by_age e jobs)
  unfolding insert_by_age
  All-insert_by_age e [] f h = (f, tt)
  All-insert_by_age e (g ∷ rest) f h = elim (Bool-cases (leb e.1.created_at g.1.created_at)) [
    | inl b ↦ rw b (f, h)
    | inr b ↦ rw b (h.0, All-insert_by_age e rest f h.1)
  ]

  pub All-order_by_age : (jobs : List (ℕ × AgentJob)) → All P jobs → All P (order_by_age jobs)
  unfolding order_by_age
  All-order_by_age [] h = tt
  All-order_by_age (e ∷ rest) h =
      All-insert_by_age e (order_by_age rest) h.0 (All-order_by_age rest h.1)
