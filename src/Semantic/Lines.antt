-- ===== src/Semantic/Lines.antt =====
-- The parser over one part of a flowscript at a time.
use mathlib.Core.List.{append-nil, append_assoc}
use fractalide.Prelude.{ℕ, zero, suc, ◌+◌, ◌≡◌, refl, List, [], ◌∷◌, ◌++◌, string_eq, arith}
use fractalide.Edges.CoreGraph.{CoreGraph}
use fractalide.Edges.CoreLexical.{CoreLexical, CoreLexicalToken, token}
use fractalide.Semantic.{
  Parser, State, break, compo, comp_port_bind, imsg_bind, stream_loop, declare_node,
}
use fractalide.Semantic.Grammar.{
  Instance, Head, node, ext_in, imsg, Link, Tail, stop, ext_out, comp_token, breaks, print_head,
  print_links, print_tail, node_of, subject, last_of, add_head, add_links, add_tail,
}

declare_node-node_of :
    (g : CoreGraph) (c : Instance)
    → declare_node g c.name c.sort ≡ record g { nodes = g.nodes ++ node_of c }
unfolding declare_node
declare_node-node_of g c = ground (arith, append-nil g.nodes)

abbrev pub bump : ℕ → ℕ → ℕ
bump zero n = n
bump (suc gap) n = bump gap (n + 1)

-- The parser in a state of an error-free run.
abbrev pub in_state : State → List CoreLexicalToken → CoreGraph → ℕ → Parser
in_state s stack g n = record { state = s; stack = stack; graph = g; errors = []; line = n }

stream_loop-breaks_bind :
    (gap : ℕ) (stack : List CoreLexicalToken) (g : CoreGraph) (n : ℕ) (k : List CoreLexical)
    → stream_loop (in_state comp_port_bind stack g n) (breaks gap k)
      ≡ stream_loop (in_state comp_port_bind stack g (bump gap n)) k
unfolding stream_loop breaks
stream_loop-breaks_bind zero stack g n k = refl
stream_loop-breaks_bind (suc gap) stack g n k = stream_loop-breaks_bind gap stack g (n + 1) k

stream_loop-breaks_imsg :
    (gap : ℕ) (stack : List CoreLexicalToken) (g : CoreGraph) (n : ℕ) (k : List CoreLexical)
    → stream_loop (in_state imsg_bind stack g n) (breaks gap k)
      ≡ stream_loop (in_state imsg_bind stack g (bump gap n)) k
unfolding stream_loop breaks
stream_loop-breaks_imsg zero stack g n k = refl
stream_loop-breaks_imsg (suc gap) stack g n k = stream_loop-breaks_imsg gap stack g (n + 1) k

-- After an instance the stack holds that instance and nothing else.
abbrev pub after : Instance → CoreGraph → ℕ → Parser
after c g n = in_state compo (comp_token c ∷ []) g n

abbrev pub head_line : Head → ℕ → ℕ
head_line (node c) n = n
head_line (ext_in p q c) n = n
head_line (imsg text gap q c) n = bump gap n

pub stream_loop-head :
    (h : Head) (g : CoreGraph) (n : ℕ) (k : List CoreLexical)
    → stream_loop (in_state break [] g n) (print_head h k)
      ≡ stream_loop (after (subject h) (add_head g h) (head_line h n)) k
unfolding stream_loop print_head
stream_loop-head (node c) g n k = simp (declare_node-node_of, append-nil)
stream_loop-head (ext_in p q c) g n k = simp (declare_node-node_of, append-nil)
stream_loop-head (imsg text gap q c) g n k =
    simp (stream_loop-breaks_imsg, declare_node-node_of, append-nil)

abbrev pub link_lines : List Link → ℕ → ℕ
link_lines [] n = n
link_lines (l ∷ ls) n = link_lines ls (bump l.gap n)

pub stream_loop-links :
    (ls : List Link) (c : Instance) (g : CoreGraph) (n : ℕ) (k : List CoreLexical)
    → stream_loop (after c g n) (print_links ls k)
      ≡ stream_loop (after (last_of c ls) (add_links g c ls) (link_lines ls n)) k
unfolding stream_loop print_links
stream_loop-links [] c g n k = simp append-nil
stream_loop-links (l ∷ ls) c g n k =
    simp (stream_loop-breaks_bind, declare_node-node_of, stream_loop-links ls, append_assoc)

-- The end of a line, and the break behind it.
pub stream_loop-tail :
    (t : Tail) (c : Instance) (g : CoreGraph) (n : ℕ) (k : List CoreLexical)
    → stream_loop (after c g n) (print_tail t (token CoreLexicalToken.break ∷ k))
      ≡ stream_loop (in_state break [] (add_tail g c t) (n + 1)) k
unfolding stream_loop print_tail
stream_loop-tail stop c g n k = simp append-nil
stream_loop-tail (ext_out p q) c g n k = refl

pub stream_loop-blank :
    (g : CoreGraph) (n : ℕ) (k : List CoreLexical)
    → stream_loop (in_state break [] g n) (token CoreLexicalToken.break ∷ k)
      ≡ stream_loop (in_state break [] g (n + 1)) k
unfolding stream_loop
stream_loop-blank g n k = refl
