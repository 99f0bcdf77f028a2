-- ===== src/Workspaces/Sequences.antt =====
-- Build numbers: COALESCE(MAX(sequence), 0) + 1 is above every number of the workspace's builds.
use quickworks.Base.{ℕ, ◌<◌, ◌≡◌, refl, String, ◌&&◌, List, [], ◌∷◌, ◌==◌, arith, nat_eq}
use quickworks.Table.{count}
use quickworks.Database.{Build}
use quickworks.Workspaces.Transitions.{max_sequence}

pub count-above_max :
    (id : String) (n : ℕ) (bs : List Build)
    → max_sequence id bs < n
    → count (λ b. (b.workspace_id == id) && nat_eq b.sequence n) bs ≡ 0
unfolding count max_sequence
count-above_max id n [] h = refl
count-above_max id n (b ∷ bs) h = ground (arith, count-above_max id n bs)
