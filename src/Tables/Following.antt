-- ===== src/Tables/Following.antt =====
-- In a table whose keys are different, the next of a node is the node behind it in its chain.
use librep.Prelude.{◌≡◌, refl, ◌∙◌, false, none, some, List, [], ◌∷◌, ◌++◌, All}
use mathlib.Core.List.{append_assoc}
use librep.Value.{eq, eq_self}
use librep.Tables.{Node, behind, next_nodes}
use librep.Tables.Moving.{flat}

-- No two nodes have the same key.
abbrev pub KeysApart : List Node → Type 0
KeysApart [] = Unit {0}
KeysApart (n ∷ ns) = All (λ m. eq n.key m.key ≡ false) ns × KeysApart ns

module _ (P : Node → Type 0) where
  All-left : (ns ms : List Node) → All P (ns ++ ms) → All P ns
  All-left [] ms h = tt
  All-left (n ∷ ns) ms (a, h) = (a, All-left ns ms h)

  All-right : (ns ms : List Node) → All P (ns ++ ms) → All P ms
  All-right [] ms h = h
  All-right (n ∷ ns) ms (a, h) = All-right ns ms h

KeysApart-left : (ns ms : List Node) → KeysApart (ns ++ ms) → KeysApart ns
KeysApart-left [] ms h = tt
KeysApart-left (n ∷ ns) ms (a, h) =
    (All-left (λ m. eq n.key m.key ≡ false) ns ms a, KeysApart-left ns ms h)

KeysApart-right : (ns ms : List Node) → KeysApart (ns ++ ms) → KeysApart ms
KeysApart-right [] ms h = h
KeysApart-right (n ∷ ns) ms (a, h) = KeysApart-right ns ms h

-- Each of the nodes `xs` has the nodes behind it as its next.
abbrev pub Follows : List (List Node) → List Node → Type 0
Follows bs [] = Unit {0}
Follows bs (x ∷ xs) = (next_nodes x.key bs ≡ some xs) × Follows bs xs

abbrev pub AllFollow : List (List Node) → List (List Node) → Type 0
AllFollow bs [] = Unit {0}
AllFollow bs (c ∷ cs) = Follows bs c × AllFollow bs cs

behind-own :
    (x : Node) (before after : List Node)
    → KeysApart (before ++ x ∷ after)
    → behind x.key (before ++ x ∷ after) ≡ some after
unfolding behind
behind-own x [] after h = rw (eq_self x.key) refl
behind-own x (n ∷ before) after (a, h) =
    let (other, _) = All-right (λ m. eq n.key m.key ≡ false) before (x ∷ after) a in
    rw other (behind-own x before after h)

-- A node of another chain is not in the chain `b`.
abbrev Misses : List Node → List Node → Type 0
Misses b xs = All (λ x. behind x.key b ≡ none) xs

Misses-nil : (xs : List Node) → Misses [] xs
unfolding behind
Misses-nil [] = tt
Misses-nil (x ∷ xs) = (refl, Misses-nil xs)

Misses-cons :
    (n : Node) (b xs : List Node)
    → All (λ m. eq n.key m.key ≡ false) xs
    → Misses b xs
    → Misses (n ∷ b) xs
unfolding behind
Misses-cons n b [] h k = tt
Misses-cons n b (x ∷ xs) (e, h) (f, k) = (rw e f, Misses-cons n b xs h k)

KeysApart-Misses : (b ms : List Node) → KeysApart (b ++ ms) → Misses b ms
KeysApart-Misses [] ms h = Misses-nil ms
KeysApart-Misses (n ∷ b) ms (a, h) =
    Misses-cons n b ms (All-right (λ m. eq n.key m.key ≡ false) b ms a) (KeysApart-Misses b ms h)

own-Follows :
    (b : List Node) (bs : List (List Node)) (before xs : List Node)
    → before ++ xs ≡ b
    → KeysApart b
    → Follows (b ∷ bs) xs
unfolding next_nodes
own-Follows b bs before [] e h = tt
own-Follows b bs before (x ∷ xs) e h =
    let own : behind x.key b ≡ some xs = rw e at (behind-own x before xs (rw e h)) in
    (
      rw (own, next_nodes) refl,
      own-Follows b bs (before ++ x ∷ []) xs (append_assoc before (x ∷ []) xs ∙ e) h,
    )

later-Follows :
    (b : List Node) (bs : List (List Node)) (xs : List Node)
    → Misses b xs
    → Follows bs xs
    → Follows (b ∷ bs) xs
unfolding next_nodes
later-Follows b bs [] h k = tt
later-Follows b bs (x ∷ xs) (e, h) (f, k) = (rw (e, next_nodes) f, later-Follows b bs xs h k)

later-AllFollow :
    (b : List Node) (bs cs : List (List Node))
    → Misses b (flat cs)
    → AllFollow bs cs
    → AllFollow (b ∷ bs) cs
unfolding flat
later-AllFollow b bs [] h k = tt
later-AllFollow b bs (c ∷ cs) h (f, k) = (
  later-Follows b bs c (All-left (λ x. behind x.key b ≡ none) c (flat cs) h) f,
  later-AllFollow b bs cs (All-right (λ x. behind x.key b ≡ none) c (flat cs) h) k,
)

pub KeysApart-AllFollow : (bs : List (List Node)) → KeysApart (flat bs) → AllFollow bs bs
unfolding flat
KeysApart-AllFollow [] h = tt
KeysApart-AllFollow (b ∷ bs) h = (
  own-Follows b bs [] b refl (KeysApart-left b (flat bs) h),
  later-AllFollow b bs bs (KeysApart-Misses b (flat bs) h)
      (KeysApart-AllFollow bs (KeysApart-right b (flat bs) h)),
)
