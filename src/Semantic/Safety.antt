-- ===== src/Semantic/Safety.antt =====
-- Until it has reported an error the parser never stops: its stack has what each state needs. After
-- an error this no longer holds.
use fractalide.Prelude.{
  ℕ, String, Option, ◌≡◌, ◌≢◌, refl, sym, subst, ◌∙◌, ◌⊎◌, inl, inr, List, [], ◌∷◌, ◌++◌, map,
}
use fractalide.Result.{Run, ok, err, panic, blocked}
use fractalide.Edges.CoreGraph.{CoreGraph}
use fractalide.Edges.CoreLexical.{CoreLexical, CoreLexicalToken, start, token, end}
use fractalide.Semantic.{
  Parser, init, State, error_s, on_bind, on_external, on_port, on_comp, on_imsg, on_break, on_token,
  Parsed, stream_loop, handle_stream, Sent, deliver, run,
}
use fractalide.Semantic.Lines.{in_state}

-- What lies on the stack in each state but the error state.
data Shape : State → List CoreLexicalToken → Type 0 where
  in_break : Shape State.break []
  in_compo : (c : String) (s : Option String) → Shape State.compo (CoreLexicalToken.comp c s ∷ [])
  in_port : (p : String) (e : Option String) → Shape State.port (CoreLexicalToken.port p e ∷ [])
  in_imsg : (m : String) → Shape State.imsg (CoreLexicalToken.imsg m ∷ [])
  in_comp_port :
      (c : String) (s : Option String) (p : String) (e : Option String)
      → Shape State.comp_port (CoreLexicalToken.port p e ∷ CoreLexicalToken.comp c s ∷ [])
  in_comp_port_bind :
      (c : String) (s : Option String) (p : String) (e : Option String)
      → Shape State.comp_port_bind (CoreLexicalToken.port p e ∷ CoreLexicalToken.comp c s ∷ [])
  in_comp_port_bind_port :
      (c : String) (s : Option String) (p : String) (e : Option String) (q : String)
      (f : Option String)
      → Shape State.comp_port_bind_port
          (CoreLexicalToken.port q f ∷ CoreLexicalToken.port p e ∷ CoreLexicalToken.comp c s ∷ [])
  in_comp_port_external :
      (c : String) (s : Option String) (p : String) (e : Option String)
      → Shape State.comp_port_external (CoreLexicalToken.port p e ∷ CoreLexicalToken.comp c s ∷ [])
  in_comp_port_external_port : Shape State.comp_port_external_port []
  in_port_external :
      (p : String) (e : Option String) → Shape State.port_external (CoreLexicalToken.port p e ∷ [])
  in_port_external_port :
      (p : String) (e : Option String) (q : String) (f : Option String)
      → Shape State.port_external_port (CoreLexicalToken.port q f ∷ CoreLexicalToken.port p e ∷ [])
  in_imsg_bind : (m : String) → Shape State.imsg_bind (CoreLexicalToken.imsg m ∷ [])
  in_imsg_bind_port :
      (m : String) (p : String) (e : Option String)
      → Shape State.imsg_bind_port (CoreLexicalToken.port p e ∷ CoreLexicalToken.imsg m ∷ [])

ruleset shapes = (
  in_break, in_compo, in_port, in_imsg, in_comp_port, in_comp_port_bind, in_comp_port_bind_port,
  in_comp_port_external, in_comp_port_external_port, in_port_external, in_port_external_port,
  in_imsg_bind, in_imsg_bind_port,
)

abbrev IsClean : Parser → Type 0
IsClean p = p.errors ≡ [] → Shape p.state p.stack

-- The token is taken, and if no error is reported the stack fits the new state.
abbrev Takes : Run Parser → Type 0
Takes (ok q) = IsClean q
Takes (err e) = ⊥
Takes panic = ⊥
Takes blocked = ⊥

-- For an arm that keeps the error list, and for one that adds to it.
kept : {s : State} {l : List CoreLexicalToken} {es : List String} → Shape s l → es ≡ [] → Shape s l
kept h _ = h

reported : {s : State} {l : List CoreLexicalToken} {e : String} → e ∷ [] ≡ [] → Shape s l
reported h = absurd (cc)

module _ (g : CoreGraph) (n : ℕ) where
  on_bind-Takes :
      {s : State} {l : List CoreLexicalToken} → Shape s l → Takes (on_bind (in_state s l g n) s)
  unfolding on_bind
  on_bind-Takes (in_comp_port c s p e) = kept (in_comp_port_bind c s p e)
  on_bind-Takes (in_imsg m) = kept (in_imsg_bind m)
  on_bind-Takes _ = reported

  on_external-Takes :
      {s : State} {l : List CoreLexicalToken} → Shape s l → Takes (on_external (in_state s l g n) s)
  unfolding on_external
  on_external-Takes (in_comp_port c s p e) = kept (in_comp_port_external c s p e)
  on_external-Takes (in_port p e) = kept (in_port_external p e)
  on_external-Takes _ = reported

  on_port-Takes :
      (q : String) (f : Option String) {s : State} {l : List CoreLexicalToken}
      → Shape s l
      → Takes (on_port (in_state s l g n) q f s)
  unfolding on_port
  on_port-Takes q f (in_compo c s) = kept (in_comp_port c s q f)
  on_port-Takes q f (in_comp_port_bind c s p e) = kept (in_comp_port_bind_port c s p e q f)
  on_port-Takes q f (in_comp_port_external c s p e) = kept in_comp_port_external_port
  on_port-Takes q f in_break = kept (in_port q f)
  on_port-Takes q f (in_port_external p e) = kept (in_port_external_port p e q f)
  on_port-Takes q f (in_imsg_bind m) = kept (in_imsg_bind_port m q f)
  on_port-Takes q f _ = reported

  on_comp-Takes :
      (q : String) (f : Option String) {s : State} {l : List CoreLexicalToken}
      → Shape s l
      → Takes (on_comp (in_state s l g n) q f)
  unfolding on_comp
  on_comp-Takes q f (in_comp_port_bind_port c s p e r d) = kept (in_compo q f)
  on_comp-Takes q f (in_port_external_port p e r d) = kept (in_compo q f)
  on_comp-Takes q f (in_imsg_bind_port m p e) = kept (in_compo q f)
  on_comp-Takes q f in_break = kept (in_compo q f)
  on_comp-Takes q f _ = reported

  on_imsg-Takes :
      (m : String) {s : State} {l : List CoreLexicalToken}
      → Shape s l
      → Takes (on_imsg (in_state s l g n) m s)
  unfolding on_imsg
  on_imsg-Takes m in_break = kept (in_imsg m)
  on_imsg-Takes m _ = reported

  on_break-Takes :
      {s : State} {l : List CoreLexicalToken} → Shape s l → Takes (on_break (in_state s l g n))
  unfolding on_break
  on_break-Takes (in_comp_port_bind c s p e) = kept (in_comp_port_bind c s p e)
  on_break-Takes (in_imsg_bind m) = kept (in_imsg_bind m)
  on_break-Takes (in_compo c s) = kept in_break
  on_break-Takes in_comp_port_external_port = kept in_break
  on_break-Takes in_break = kept in_break
  on_break-Takes _ = reported

  on_token-Takes :
      (t : CoreLexicalToken) {s : State} {l : List CoreLexicalToken}
      → Shape s l
      → Takes (on_token (in_state s l g n) t)
  unfolding on_token
  on_token-Takes CoreLexicalToken.bind h = on_bind-Takes h
  on_token-Takes CoreLexicalToken.external h = on_external-Takes h
  on_token-Takes (CoreLexicalToken.port q f) h = on_port-Takes q f h
  on_token-Takes (CoreLexicalToken.comp q f) h = on_comp-Takes q f h
  on_token-Takes (CoreLexicalToken.imsg m) h = on_imsg-Takes m h
  on_token-Takes CoreLexicalToken.break h = on_break-Takes h
  on_token-Takes CoreLexicalToken.comment h = kept h

-- Some of the tokens, from the first on, bring the parser to an error that it reports.
pub data Reports : Parser → List CoreLexicalToken → Type 0 where
  now : {p : Parser} {ts : List CoreLexicalToken} → p.errors ≢ [] → Reports p ts
  later :
      {p q : Parser} {t : CoreLexicalToken} {ts : List CoreLexicalToken}
      → on_token p t ≡ ok q
      → Reports q ts
      → Reports p (t ∷ ts)

errors_cases : (es : List String) → (es ≡ []) ⊎ (es ≢ [])
errors_cases [] = inl refl
errors_cases (e ∷ es) = inr (λ h. cc)

-- The rest of a run, as it ends with the message `end`.
abbrev Ends : Parser → List CoreLexicalToken → String → List CoreLexical → Type 0
Ends p ts path rest =
    ((parsed : Parsed) × (stream_loop p (map token ts ++ end path ∷ rest) ≡ ok (parsed, rest)))
    ⊎ Reports p ts

taken : (r : Run Parser) → Takes r → (q : Parser) × (r ≡ ok q) × IsClean q
taken (ok q) h = (q, refl, h)
taken (err e) h = absurd h
taken panic h = absurd h
taken blocked h = absurd h

on_token-clean :
    (p : Parser) (t : CoreLexicalToken) → p.errors ≡ [] → IsClean p → Takes (on_token p t)
on_token-clean p t e h =
    subst (λ x. Takes (on_token (record p { errors = x }) t)) (sym e)
      (on_token-Takes p.graph p.line t (h e))

stream_loop-token :
    (p : Parser) (t : CoreLexicalToken) (q : Parser) (k : List CoreLexical)
    → on_token p t ≡ ok q
    → stream_loop p (token t ∷ k) ≡ stream_loop q k
unfolding stream_loop
stream_loop-token p t q k h = rw (h, stream_loop)

Ends-token :
    (p : Parser) (t : CoreLexicalToken) (q : Parser) (ts : List CoreLexicalToken) (path : String)
    (rest : List CoreLexical)
    → on_token p t ≡ ok q
    → Ends q ts path rest
    → Ends p (t ∷ ts) path rest
Ends-token p t q ts path rest took (inl (parsed, e)) =
    inl (parsed, stream_loop-token p t q (map token ts ++ end path ∷ rest) took ∙ e)
Ends-token p t q ts path rest took (inr r) = inr (later took r)

stream_loop-end :
    (p : Parser) (path : String) (rest : List CoreLexical)
    → (parsed : Parsed) × (stream_loop p (end path ∷ rest) ≡ ok (parsed, rest))
unfolding stream_loop
stream_loop-end p path rest = (_, refl)

stream_loop-Ends :
    (ts : List CoreLexicalToken) (p : Parser) (path : String) (rest : List CoreLexical)
    → IsClean p
    → Ends p ts path rest
stream_loop-Ends [] p path rest h = inl (stream_loop-end p path rest)
stream_loop-Ends (t ∷ ts) p path rest h = elim (errors_cases p.errors) [
  | inr bad ↦ inr (now bad)
  | inl e ↦
      let (q, took, c) = taken (on_token p t) (on_token-clean p t e h) in
      Ends-token p t q ts path rest took (stream_loop-Ends ts q path rest c)
]

-- On any stream of tokens that is closed, the parser either comes to its end and returns a graph or
-- its errors, leaving what follows in the channel, or it has reported an error on the way. It never
-- panics, fails or waits before the first error that it reports.
pub handle_stream_ends :
    (ts : List CoreLexicalToken) (path : String) (rest : List CoreLexical)
    → ((parsed : Parsed) × (handle_stream (map token ts ++ end path ∷ rest) ≡ ok (parsed, rest)))
      ⊎ Reports init ts
unfolding handle_stream
handle_stream_ends ts path rest = stream_loop-Ends ts init path rest (λ _. in_break)

-- So the agent's run ends.
pub run-ends_or_Reports :
    (ts : List CoreLexicalToken) (path close : String) (rest : List CoreLexical)
    → ((sent : Sent) × (run (start path ∷ map token ts ++ end close ∷ rest) ≡ ok (sent, rest)))
      ⊎ Reports init ts
unfolding run
run-ends_or_Reports ts path close rest = ended (handle_stream_ends ts close rest)
  where
    ended :
        ((parsed : Parsed) × (handle_stream (map token ts ++ end close ∷ rest) ≡ ok (parsed, rest)))
          ⊎ Reports init ts
        → ((sent : Sent) × (run (start path ∷ map token ts ++ end close ∷ rest) ≡ ok (sent, rest)))
          ⊎ Reports init ts
    ended (inl (parsed, e)) = inl (deliver path parsed, rw e refl)
    ended (inr bad) = inr bad

-- `p[e] a(sort) q[f] => x[g]`, and what follows
abbrev pub port_before_comp :
    String
    → Option String
    → String
    → Option String
    → String
    → Option String
    → String
    → Option String
    → List CoreLexical
    → List CoreLexical
port_before_comp p e a sort q f x g rest =
    token (CoreLexicalToken.port p e)
    ∷ token (CoreLexicalToken.comp a sort)
    ∷ token (CoreLexicalToken.port q f)
    ∷ token CoreLexicalToken.external
    ∷ token (CoreLexicalToken.port x g)
    ∷ rest

-- From the error state, whatever the parser has read and reported before, a port, an instance and a
-- port that is sent outside, `p[e] a(sort) q[f] => x[g]`, end in a panic.
pub recovery_panics :
    (parser : Parser) (p a q x : String) (e sort f g : Option String) (rest : List CoreLexical)
    → parser.state ≡ error_s
    → stream_loop parser (port_before_comp p e a sort q f x g rest) ≡ panic
unfolding stream_loop
recovery_panics parser p a q x e sort f g rest h =
    subst (λ s. stream_loop (record parser { state = s }) k ≡ panic) (sym h) refl
  where
    k : List CoreLexical
    k = port_before_comp p e a sort q f x g rest
