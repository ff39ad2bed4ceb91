-- ===== src/Files/Tree/Order.antt =====
-- What the file tree lists, and in which order (server/src/files/file-store.service.ts).
use pocket_dev.Base.{
  ℕ, ◌+◌, Text, ◌≡◌, refl, Bool, true, false, List, [], ◌∷◌, ◌++◌, arith, if◌then◌else◌, Bool-cases,
  inl, inr, length,
}
use pocket_dev.Files.Disk.{Entries, file, dir, empty, entry}
use pocket_dev.Files.Tree.{
  FileNode, FileNodes, file_node, dir_node, no_nodes, node, is_ignored, join, in_order, insert,
  walk,
}

-- How many files and directories are listed, at all depths.
unfoldable pub size_of : FileNodes → ℕ
size_of no_nodes = 0
size_of (node (file_node _ _ _) xs) = 1 + size_of xs
size_of (node (dir_node _ _ children) xs) = 1 + size_of children + size_of xs

-- How many there are on the disk outside the ignored directories.
unfoldable pub size_on_disk : Entries → ℕ
size_on_disk empty = 0
size_on_disk (entry s (file _) es) = 1 + size_on_disk es
size_on_disk (entry s (dir sub) es) =
    let below = size_on_disk sub in
    let rest = size_on_disk es in if is_ignored s then rest else 1 + below + rest

abbrev node_size : FileNode → ℕ
node_size (file_node _ _ _) = 1
node_size (dir_node _ _ children) = 1 + size_of children

module _ (not_after : Text → Text → Bool) where
  abbrev AllAfter : FileNode → FileNodes → Type 0
  AllAfter x no_nodes = Unit
  AllAfter x (node y ys) = (in_order not_after x y ≡ true) × AllAfter x ys

  -- Every node is in order before all that follow it, and so are the children of every directory.
  abbrev pub IsOrdered : FileNodes → Type 0
  IsOrdered no_nodes = Unit
  IsOrdered (node (file_node n p k) xs) = AllAfter (file_node n p k) xs × IsOrdered xs
  IsOrdered (node (dir_node n p children) xs) =
      AllAfter (dir_node n p children) xs × IsOrdered children × IsOrdered xs

  abbrev IsOrderedNode : FileNode → Type 0
  IsOrderedNode (file_node _ _ _) = Unit
  IsOrderedNode (dir_node _ _ children) = IsOrdered children

  module _ (total : (a b : Text) → not_after a b ≡ false → not_after b a ≡ true)
      (trans : (a b c : Text)
        → not_after a b ≡ true
        → not_after b c ≡ true
        → not_after a c ≡ true) where
    in_order_total :
        (x y : FileNode) → in_order not_after x y ≡ false → in_order not_after y x ≡ true
    in_order_total (dir_node a _ _) (dir_node b _ _) h = total a b h
    in_order_total (file_node a _ _) (file_node b _ _) h = total a b h
    in_order_total (dir_node _ _ _) (file_node _ _ _) h = cc
    in_order_total (file_node _ _ _) (dir_node _ _ _) h = refl

    in_order_trans :
        (x y z : FileNode)
        → in_order not_after x y ≡ true
        → in_order not_after y z ≡ true
        → in_order not_after x z ≡ true
    in_order_trans (dir_node a _ _) (dir_node b _ _) (dir_node c _ _) h g = trans a b c h g
    in_order_trans (file_node a _ _) (file_node b _ _) (file_node c _ _) h g = trans a b c h g
    in_order_trans (dir_node _ _ _) y (file_node _ _ _) h g = refl
    in_order_trans (file_node _ _ _) (dir_node _ _ _) z h g = absurd (cc h)
    in_order_trans x (file_node _ _ _) (dir_node _ _ _) h g = absurd (cc g)

    AllAfter-rest :
        (x y : FileNode) (ys : FileNodes)
        → in_order not_after x y ≡ true
        → AllAfter y ys
        → AllAfter x ys
    AllAfter-rest x y no_nodes h a = tt
    AllAfter-rest x y (node z zs) h a = (in_order_trans x y z h a.0, AllAfter-rest x y zs h a.1)

    AllAfter-insert :
        (y x : FileNode) (ys : FileNodes)
        → in_order not_after y x ≡ true
        → AllAfter y ys
        → AllAfter y (insert not_after x ys)
    unfolding insert
    AllAfter-insert y x no_nodes h a = (h, tt)
    AllAfter-insert y x (node z zs) h a = elim (Bool-cases (in_order not_after x z)) [
      | inl first ↦ rw first (h, a)
      | inr later ↦ rw later (a.0, AllAfter-insert y x zs h a.1)
    ]

    IsOrdered-node :
        (x : FileNode) (xs : FileNodes)
        → AllAfter x xs
        → IsOrderedNode x
        → IsOrdered xs
        → IsOrdered (node x xs)
    IsOrdered-node (file_node _ _ _) xs a o h = (a, h)
    IsOrdered-node (dir_node _ _ _) xs a o h = (a, o, h)

    node_parts :
        (x : FileNode) (xs : FileNodes)
        → IsOrdered (node x xs)
        → AllAfter x xs × IsOrderedNode x × IsOrdered xs
    node_parts (file_node _ _ _) xs h = (h.0, tt, h.1)
    node_parts (dir_node _ _ _) xs h = h

    insert-IsOrdered :
        (x : FileNode) (ys : FileNodes)
        → IsOrderedNode x
        → IsOrdered ys
        → IsOrdered (insert not_after x ys)
    unfolding insert
    insert-IsOrdered x no_nodes o h = IsOrdered-node x no_nodes tt o tt
    insert-IsOrdered x (node y ys) o h =
        let (a, p, r) = node_parts y ys h in
        elim (Bool-cases (in_order not_after x y)) [
          | inl first ↦
              rw first (IsOrdered-node x (node y ys) (first, AllAfter-rest x y ys first a) o h)
          | inr later ↦ rw later (
              IsOrdered-node y (insert not_after x ys)
                (AllAfter-insert y x ys (in_order_total x y later) a) p (insert-IsOrdered x ys o r))
        ]

    size_of-node : (x : FileNode) (xs : FileNodes) → size_of (node x xs) ≡ node_size x + size_of xs
    unfolding size_of
    size_of-node (file_node _ _ _) xs = refl
    size_of-node (dir_node _ _ _) xs = omega arith

    size_of-insert :
        (x : FileNode) (ys : FileNodes) → size_of (insert not_after x ys) ≡ node_size x + size_of ys
    unfolding insert
    size_of-insert x no_nodes = size_of-node x no_nodes
    size_of-insert x (node y ys) = elim (Bool-cases (in_order not_after x y)) [
      | inl first ↦ rw first (size_of-node x (node y ys))
      | inr later ↦ rw later (
          omega
            (arith, size_of-node y (insert not_after x ys), size_of-node y ys, size_of-insert x ys))
    ]

    -- The tree is complete and in order: it lists as many files and directories as there are outside the
    -- ignored directories, and in every directory the directories come first, each kind by name.
    pub walk_lem :
        (rel : List Text) (es : Entries)
        → IsOrdered (walk not_after rel es) × (size_of (walk not_after rel es) ≡ size_on_disk es)
    unfolding walk size_on_disk
    walk_lem rel empty = (tt, unfold size_of in refl)
    walk_lem rel (entry s (file b) es) =
        let (o, k) = walk_lem rel es in
        let x = file_node s (join (rel ++ s ∷ [])) (length b) in
        (
          insert-IsOrdered x (walk not_after rel es) tt o,
          omega (arith, k, size_of-insert x (walk not_after rel es)),
        )
    walk_lem rel (entry s (dir sub) es) =
        let (o, k) = walk_lem rel es in
        let (p, l) = walk_lem (rel ++ s ∷ []) sub in
        let x = dir_node s (join (rel ++ s ∷ [])) (walk not_after (rel ++ s ∷ []) sub) in
        elim (Bool-cases (is_ignored s)) [
          | inl skipped ↦ rw skipped (o, k)
          | inr kept ↦ rw kept (
            insert-IsOrdered x (walk not_after rel es) p o,
            omega (arith, k, l, size_of-insert x (walk not_after rel es)),
          )
        ]
