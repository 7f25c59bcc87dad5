-- ===== src/CgiHandler/ReadOnly.antt =====
-- The parent's side of a CGI request (src/CgiHandler) and the effects that write.
use create_httpserver_from_b.Common.{ℕ, ◌∙◌, refl, [], ◌∷◌, ◌++◌, Option, none, some}
use create_httpserver_from_b.Exchange.{System, Pipe, closed, forked, Exchange, returned, bind_exec}
use create_httpserver_from_b.Exchange.World.{Keeps, bind_exec-Keeps, if-Keeps, writes-quiet}
use create_httpserver_from_b.CgiHandler.{
  Child, close_pipe, fork_child, second_pipe, first_pipe, pipe_and_fork, get_child, post_child,
  outsource_post, outsource_get,
}

close_pipe-Keeps : (p : Pipe) (x : Exchange) → Keeps x (close_pipe p x)
unfolding close_pipe
close_pipe-Keeps p x = record {
  kept =
      writes-quiet (x.effects ++ closed p.read_end ∷ []) (closed p.write_end) refl
      ∙ writes-quiet x.effects (closed p.read_end) refl;
}

module _ (os : System) where
  fork_child-Keeps : (p q : Pipe) (o : Option ℕ) (x : Exchange) → Keeps x (fork_child p q o x)
  unfolding fork_child
  fork_child-Keeps p q (some pid) x = record { kept = writes-quiet x.effects (forked pid) refl }
  fork_child-Keeps p q none x =
      bind_exec-Keeps x (close_pipe p x)
        (λ _ y. bind_exec (close_pipe q y) (λ _ z. returned none z)) (close_pipe-Keeps p x)
        (λ _ y.
          bind_exec-Keeps y (close_pipe q y) (λ _ z. returned none z) (close_pipe-Keeps q y)
            (λ _ z. record { kept = refl }))

  second_pipe-Keeps : (p : Pipe) (o : Option Pipe) (x : Exchange) → Keeps x (second_pipe os p o x)
  unfolding second_pipe
  second_pipe-Keeps p (some q) x = fork_child-Keeps p q os.fork x
  second_pipe-Keeps p none x =
      bind_exec-Keeps x (close_pipe p x) (λ _ z. returned none z) (close_pipe-Keeps p x)
        (λ _ z. record { kept = refl })

  first_pipe-Keeps : (o : Option Pipe) (x : Exchange) → Keeps x (first_pipe os o x)
  unfolding first_pipe
  first_pipe-Keeps (some p) x = second_pipe-Keeps p os.pipe_to_parent x
  first_pipe-Keeps none x = record { kept = refl }

  get_child-Keeps : (o : Option Child) (x : Exchange) → Keeps x (get_child o x)
  unfolding get_child
  get_child-Keeps none x = record { kept = refl }
  get_child-Keeps (some c) x =
      let a = closed c.to_child.read_end in
      let b = closed c.to_child.write_end in
      record {
        kept =
            writes-quiet ((x.effects ++ a ∷ []) ++ b ∷ []) (closed c.to_parent.write_end) refl
            ∙ writes-quiet (x.effects ++ a ∷ []) b refl
            ∙ writes-quiet x.effects a refl;
      }

  pub outsource_get-Keeps : (x : Exchange) → Keeps x (outsource_get os x)
  unfolding outsource_get pipe_and_fork
  outsource_get-Keeps x =
      if-Keeps x.response.file_exist _ _ x
        (bind_exec-Keeps x (first_pipe os os.pipe_to_child x) get_child
          (first_pipe-Keeps os.pipe_to_child x) get_child-Keeps)
        (record { kept = refl })

  post_child-Keeps : (o : Option Child) (x : Exchange) → Keeps x (post_child o x)
  unfolding post_child
  post_child-Keeps none x = record { kept = refl }
  post_child-Keeps (some c) x =
      let a = closed c.to_child.read_end in
      record {
        kept =
            writes-quiet (x.effects ++ a ∷ []) (closed c.to_parent.write_end) refl
            ∙ writes-quiet x.effects a refl;
      }

  pub outsource_post-Keeps : (x : Exchange) → Keeps x (outsource_post os x)
  unfolding outsource_post pipe_and_fork
  outsource_post-Keeps x =
      if-Keeps x.response.file_exist _ _ x
        (bind_exec-Keeps x (first_pipe os os.pipe_to_child x) post_child
          (first_pipe-Keeps os.pipe_to_child x) post_child-Keeps)
        (record { kept = refl })
