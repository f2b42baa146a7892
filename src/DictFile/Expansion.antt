-- ===== src/DictFile/Expansion.antt =====
-- A reference for what a dictionary file stands for: its lines, with the lines of each included file
-- in the place of the directive.
use native.Mathlib.Nat.{suc-add}
use pyrad.Common.{
  append_assoc, true, ℕ, zero, suc, ◌+◌, ◌-◌, ◌<◌, ◌≡◌, refl, sym, ap, ◌∙◌, Option, none, some,
  List, [], ◌∷◌, ◌++◌, Text, arith,
}
use pyrad.DictFile.{
  is_abs, join, dirname, basename, Node, make_node, next_of, include_name, Lines, line, done,
  endless, moved, gave, path_of, read_node, round, all_lines, of_lines, cur_dir, take_line, entered,
}

-- lines in front of others
unfoldable pub give : List Text → Lines → Lines
give [] rest = rest
give (t ∷ ts) rest = line t (give ts rest)

give-append : (ts us : List Text) (rest : Lines) → give (ts ++ us) rest ≡ give ts (give us rest)
unfolding give
give-append [] us rest = refl
give-append (t ∷ ts) us rest = ap (line t) (give-append ts us rest)

module _ (open_file : Text → Option (List Text)) (cwd : Text) where
  -- The lines of a file in the directory `dir` expand to a list of lines. An included file is looked
  -- for in the directory of the file that includes it, and its own includes in its own directory.
  pub data Expands : Text → List Text → List Text → Type 0 where
    nothing : {dir : Text} → Expands dir [] []
    plain :
        {dir t : Text} {ts out : List Text}
        → include_name t ≡ none
        → Expands dir ts out
        → Expands dir (t ∷ ts) (t ∷ out)
    include :
        {dir t : Text} {ts inner out out' : List Text} (name : Text)
        → include_name t ≡ some name
        → open_file (path_of open_file cwd dir name) ≡ some inner
        → Expands (make_node inner name dir).dir inner out
        → Expands dir ts out'
        → Expands dir (t ∷ ts) (out ++ out')

  -- the rounds of the loop that an expansion takes
  unfoldable pub rounds : {dir : Text} {ts out : List Text} → Expands dir ts out → ℕ
  rounds nothing = 1
  rounds (plain p e) = suc (rounds e)
  rounds (include name p o e e') = suc (rounds e + rounds e')

  abbrev node_of : Text → Text → List Text → ℕ → Node
  node_of name dir ts current = record { name = name; dir = dir; rest = ts; current = current }

  round_plain :
      (name dir t : Text) (ts : List Text) (current : ℕ) (stack : List Node)
      → include_name t ≡ none
      → round open_file cwd (node_of name dir (t ∷ ts) current ∷ stack)
        ≡ gave t (node_of name dir ts (current + 1) ∷ stack)
  unfolding round next_of take_line
  round_plain name dir t ts current stack h = ground (arith, h)

  round_include :
      (name dir t : Text) (ts : List Text) (current : ℕ) (stack : List Node) (file : Text)
      (inner : List Text)
      → include_name t ≡ some file
      → open_file (path_of open_file cwd dir file) ≡ some inner
      → round open_file cwd (node_of name dir (t ∷ ts) current ∷ stack)
        ≡ moved (make_node inner file dir ∷ node_of name dir ts (current + 1) ∷ stack)
  unfolding round next_of take_line read_node cur_dir entered
  round_include name dir t ts current stack file inner h o = ground (arith, h, o)

  round_end :
      (name dir : Text) (current : ℕ) (stack : List Node)
      → round open_file cwd (node_of name dir [] current ∷ stack) ≡ moved stack
  unfolding round next_of
  round_end name dir current stack = refl

  all_lines_moved :
      (f : ℕ) (stack next : List Node)
      → round open_file cwd stack ≡ moved next
      → all_lines open_file cwd (suc f) stack ≡ all_lines open_file cwd f next
  unfolding all_lines
  all_lines_moved f stack next h = ground (arith, h)

  all_lines_gave :
      (f : ℕ) (stack next : List Node) (t : Text)
      → round open_file cwd stack ≡ gave t next
      → all_lines open_file cwd (suc f) stack ≡ line t (all_lines open_file cwd f next)
  unfolding all_lines
  all_lines_gave f stack next t h = ground (arith, h)

  -- A file on the top of the stack gives the lines of its expansion, and then what the rest of the
  -- stack gives.
  all_lines-give :
      {dir : Text} {ts out : List Text} (e : Expands dir ts out) (name : Text) (current f : ℕ)
      (stack : List Node)
      → all_lines open_file cwd (rounds e + f) (node_of name dir ts current ∷ stack)
        ≡ give out (all_lines open_file cwd f stack)
  unfolding rounds give make_node
  all_lines-give {dir} nothing name current f stack =
      let n : 1 + f ≡ suc f = omega arith in
      rw n (all_lines_moved f _ stack (round_end name dir current stack))
  all_lines-give {dir} (plain {t = t} {ts = ts} p e) name current f stack =
      rw (suc-add (rounds e) f) (
        all_lines_gave (rounds e + f) _ _ t (round_plain name dir t ts current stack p)
        ∙ ap (line t) (all_lines-give e name (current + 1) f stack))
  all_lines-give {dir}
        (include {t = t} {ts = ts} {inner = inner} {out = out} {out' = out'} file p o e e') name
        current f stack =
      let n : suc (rounds e + rounds e') + f ≡ suc (rounds e + (rounds e' + f)) = omega arith in
      let below : List Node = node_of name dir ts (current + 1) ∷ stack in
      rw n (
        all_lines_moved (rounds e + (rounds e' + f)) _ (make_node inner file dir ∷ below)
          (round_include name dir t ts current stack file inner p o)
        ∙ (all_lines-give e (make_node inner file dir).name 0 (rounds e' + f) below
            ∙ (ap (give out) (all_lines-give e' name (current + 1) f stack)
                ∙ sym (give-append out out' (all_lines open_file cwd f stack)))))

  all_lines_end : (f : ℕ) → all_lines open_file cwd (suc f) [] ≡ done
  unfolding all_lines round
  all_lines_end f = refl

  -- The lines that a `for` loop over the DictFile of an open file gets are those of its expansion,
  -- and then the loop ends; the bound on the rounds exceeds the size of the expansion.
  pub all_lines-Expands :
      {ts out : List Text} (e : Expands (join cwd []) ts out) (fuel : ℕ)
      → rounds e < fuel
      → all_lines open_file cwd fuel (of_lines open_file cwd ts) ≡ give out done
  unfolding of_lines make_node basename is_abs join dirname
  all_lines-Expands {ts} {out} e fuel enough =
      let n : rounds e + suc (fuel - (rounds e + 1)) ≡ fuel = omega arith in
      rw (← n) (
        all_lines-give e [] 0 (suc (fuel - (rounds e + 1))) []
        ∙ ap (give out) (all_lines_end (fuel - (rounds e + 1))))

  unfoldable pub Expands-append :
      {dir : Text} {ts us out out' : List Text}
      → Expands dir ts out
      → Expands dir us out'
      → Expands dir (ts ++ us) (out ++ out')
  Expands-append nothing e' = e'
  Expands-append (plain p e) e' = plain p (Expands-append e e')
  Expands-append {dir} {us = us} {out' = out'} (include {out = a} {out' = b} file p o e₁ e₂) e' =
      let e : Expands dir _ (a ++ (b ++ out')) = include file p o e₁ (Expands-append e₂ e') in
      rw (append_assoc a b out') e

  cyclic_node :
      (name file dir t : Text) (us ts : List Text) (current f : ℕ) (stack : List Node)
      → include_name t ≡ some file
      → is_abs file ≡ true
      → open_file file ≡ some (t ∷ ts)
      → all_lines open_file cwd f (node_of name dir (t ∷ us) current ∷ stack) ≡ endless
  unfolding path_of make_node
  cyclic_node name file dir t us ts current zero stack p a o = unfold all_lines in refl
  cyclic_node name file dir t us ts current (suc f) stack p a o =
      let opened : open_file (path_of open_file cwd dir file) ≡ some (t ∷ ts) = rw a o in
      let inner : Node = make_node (t ∷ ts) file dir in
      all_lines_moved f _ _ (round_include name dir t us current stack file (t ∷ ts) p opened)
      ∙ cyclic_node inner.name file inner.dir t ts ts 0 f
          (node_of name dir us (current + 1) ∷ stack) p a o

  -- A file that includes itself, by an absolute path on its first line, is read without end: whatever
  -- the bound on the rounds, the loop over a file that begins with that include has not ended.
  pub self_include_endless :
      (t file : Text) (us ts : List Text) (fuel : ℕ)
      → include_name t ≡ some file
      → is_abs file ≡ true
      → open_file file ≡ some (t ∷ ts)
      → all_lines open_file cwd fuel (of_lines open_file cwd (t ∷ us)) ≡ endless
  unfolding of_lines make_node
  self_include_endless t file us ts fuel p a o = cyclic_node _ file _ t us ts 0 fuel [] p a o

  -- An expansion has no includes left: pasted into one file, in any directory, it stands for itself.
  unfoldable pub pasted :
      {dir dir' : Text} {ts out : List Text} → Expands dir ts out → Expands dir' out out
  pasted nothing = nothing
  pasted (plain p e) = plain p (pasted e)
  pasted (include file p o e e') = Expands-append (pasted e) (pasted e')
