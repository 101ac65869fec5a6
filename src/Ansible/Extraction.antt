-- ===== src/Ansible/Extraction.antt =====
-- Which credentials `extractCreds` returns.
use o2_ims_worker.Prelude.{
  String, ◌≡◌, ◌≢◌, ◌∙◌, refl, sym, ap, Option, none, some, List, [], ◌∷◌, ◌++◌, arith, eq_iff,
  Option-cases, inl, inr,
}
use o2_ims_worker.Ansible.{
  Creds, Msg, Task, Play, no_msg, text_msg, other_msg, or_else, creds_in, creds_in_task,
  creds_in_play, extract_creds,
}

-- The messages of a play, and of all plays, in order.
abbrev play_msgs : Play → List Msg
play_msgs [] = []
play_msgs (task ∷ tasks) = task ++ play_msgs tasks

abbrev pub all_msgs : List Play → List Msg
all_msgs [] = []
all_msgs (play ∷ plays) = play_msgs play ++ all_msgs plays

module _ (parse : String → Option Creds) where
  -- What a search through the messages finds.
  unfoldable pub first_creds : List Msg → Option Creds
  first_creds [] = none
  first_creds (m ∷ ms) = or_else (creds_in parse m) (first_creds ms)

  first_creds-append :
      (xs ys : List Msg) → first_creds (xs ++ ys) ≡ or_else (first_creds xs) (first_creds ys)
  unfolding first_creds
  first_creds-append [] ys = refl
  first_creds-append (x ∷ xs) ys = ground (arith, first_creds-append xs ys)

  task_lem : (task : Task) → creds_in_task parse task ≡ first_creds task
  unfolding creds_in_task first_creds
  task_lem [] = refl
  task_lem (m ∷ ms) = ap (or_else (creds_in parse m)) (task_lem ms)

  play_lem : (play : Play) → creds_in_play parse play ≡ first_creds (play_msgs play)
  unfolding creds_in_play first_creds
  play_lem [] = refl
  play_lem (task ∷ tasks) =
      ground (arith, task_lem task, play_lem tasks, first_creds-append task (play_msgs tasks))

  extract_creds-all_msgs :
      (plays : List Play) → extract_creds parse plays ≡ first_creds (all_msgs plays)
  unfolding extract_creds first_creds
  extract_creds-all_msgs [] = refl
  extract_creds-all_msgs (play ∷ plays) = ground (
    arith,
    play_lem play,
    extract_creds-all_msgs plays,
    first_creds-append (play_msgs play) (all_msgs plays),
  )

  -- A text that parses to credentials with a server and a token.
  pub record IsCreds (m : Msg) (c : Creds) : Type 0 where
    pub text : String
    pub is_text : m ≡ text_msg text
    pub parsed : parse text ≡ some c
    pub has_server : c.server ≢ ""
    pub has_token : c.token ≢ ""

  creds_in-IsCreds : (m : Msg) (c : Creds) → creds_in parse m ≡ some c → IsCreds m c
  creds_in-IsCreds no_msg c e = absurd (cc)
  creds_in-IsCreds other_msg c e = absurd (cc)
  creds_in-IsCreds (text_msg s) c e = elim (Option-cases (parse s)) [
    | inl p ↦ absurd (ground (arith, p))
    | inr (d, p) ↦ record {
      text = s;
      is_text = refl;
      parsed = ground (arith, p, eq_iff d.server "", eq_iff d.token "");
      has_server = ground (arith, p, eq_iff d.server "", eq_iff d.token "", eq_iff c.server "");
      has_token = ground (arith, p, eq_iff d.server "", eq_iff d.token "", eq_iff c.token "");
    }
  ]

  -- Where `c` is the first of the messages' credentials.
  pub record IsFirst (c : Creds) (ms : List Msg) : Type 0 where
    pub before : List Msg
    pub found : Msg
    pub after : List Msg
    pub split : ms ≡ before ++ found ∷ after
    pub is_creds : IsCreds found c
    pub none_before : first_creds before ≡ none

  first_creds-IsFirst : (c : Creds) (ms : List Msg) → first_creds ms ≡ some c → IsFirst c ms
  unfolding first_creds
  first_creds-IsFirst c [] e = absurd (cc)
  first_creds-IsFirst c (m ∷ ms) e = elim (Option-cases (creds_in parse m)) [
    | inl n ↦
        let rest = first_creds-IsFirst c ms (ground (arith, n)) in
        record {
          before = m ∷ rest.before;
          found = rest.found;
          after = rest.after;
          split = ap (◌∷◌ m) rest.split;
          is_creds = rest.is_creds;
          none_before = ground (arith, n, rest.none_before);
        }
    | inr (d, p) ↦ record {
      before = [];
      found = m;
      after = ms;
      split = refl;
      is_creds = creds_in-IsCreds m c (ground (arith, p));
      none_before = refl;
    }
  ]

  -- The credentials that `extractCreds` returns are those of the first message, over all plays,
  -- tasks and hosts in order, that is a text with a server and a token.
  pub extract_creds-IsFirst :
      (plays : List Play) (c : Creds)
      → extract_creds parse plays ≡ some c
      → IsFirst c (all_msgs plays)
  extract_creds-IsFirst plays c e =
      first_creds-IsFirst c (all_msgs plays) (sym (extract_creds-all_msgs plays) ∙ e)
