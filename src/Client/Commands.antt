-- ===== src/Client/Commands.antt =====
-- The commands of the user, from the line to the state machine.
use vsr_kv.Common.{
  ℕ, ◌≡◌, refl, sym, ap, ◌∙◌, inl, inr, false, Option, none, some, List, [], ◌∷◌, ◌++◌, append-nil,
  if◌then◌else◌, Bool-cases,
}
use vsr_kv.Common.Map.{find, insert, equiv, find-insert}
use vsr_kv.Common.Map.Text.{text_key}
use vsr_kv.Replica.Execute.{
  not_found, is_space, skip_spaces, until_space, extract, StateMachine, run_operation,
}
use vsr_kv.Client.{
  UserCommand, word_get, word_set, parse_line, get_command, set_command, same_text, message_of,
}

-- A word has a character, and no white space.
pub data Word : List ℕ → Type 0 where
  last : {c : ℕ} → is_space c ≡ false → Word (c ∷ [])
  more : {c : ℕ} {cs : List ℕ} → is_space c ≡ false → Word cs → Word (c ∷ cs)

until_space-word :
    {w : List ℕ} → Word w → (rest : List ℕ) → until_space (w ++ (b' ' ∷ rest)) ≡ (w, b' ' ∷ rest)
until_space-word (Word.last e) rest = rw e refl
until_space-word (Word.more e v) rest = rw (e, until_space-word v rest) refl

until_space-end : {w : List ℕ} → Word w → until_space w ≡ (w, [])
until_space-end (Word.last e) = rw e refl
until_space-end (Word.more e v) = rw (e, until_space-end v) refl

skip_spaces-word : {w : List ℕ} → Word w → (rest : List ℕ) → skip_spaces (w ++ rest) ≡ w ++ rest
skip_spaces-word (Word.last e) rest = rw e refl
skip_spaces-word (Word.more e v) rest = rw e refl

pub extract-word :
    {w : List ℕ} → Word w → (rest : List ℕ) → extract (w ++ (b' ' ∷ rest)) ≡ (w, b' ' ∷ rest)
unfolding extract
extract-word w rest = ap until_space (skip_spaces-word w (b' ' ∷ rest)) ∙ until_space-word w rest

pub extract-end : {w : List ℕ} → Word w → extract w ≡ (w, [])
unfolding extract
extract-end {w = w} v =
    ap (λ u. until_space (skip_spaces u)) (sym (append-nil w))
    ∙ ap until_space (skip_spaces-word v [])
    ∙ ap until_space (append-nil w)
    ∙ until_space-end v

abbrev pub set_line : List ℕ → List ℕ → List ℕ
set_line key value = word_set ++ (b' ' ∷ (key ++ (b' ' ∷ value)))

abbrev pub get_line : List ℕ → List ℕ
get_line key = word_get ++ (b' ' ∷ key)

set_key-word :
    {value : List ℕ}
    → Word value
    → (key : List ℕ)
    → elim value [ [] ↦ UserCommand.set_usage | c ∷ cs ↦ UserCommand.set_key key (c ∷ cs) ]
      ≡ UserCommand.set_key key value
set_key-word (Word.last e) key = refl
set_key-word (Word.more e v) key = refl

get_key-word :
    {key : List ℕ}
    → Word key
    → elim key [ [] ↦ UserCommand.get_usage | c ∷ cs ↦ UserCommand.get_key (c ∷ cs) ]
      ≡ UserCommand.get_key key
get_key-word (Word.last e) = refl
get_key-word (Word.more e v) = refl

pub parse_line-set :
    {key value : List ℕ}
    → Word key
    → Word value
    → parse_line (set_line key value) ≡ UserCommand.set_key key value
unfolding parse_line set_command same_text extract
parse_line-set {key = key} {value = value} k v =
    ap
      (λ q. elim ((extract q.1).0) [
        | [] ↦ UserCommand.set_usage
        | c ∷ cs ↦ UserCommand.set_key q.0 (c ∷ cs)
      ])
      (extract-word k value)
    ∙ ap
        (λ q. elim (q.0) [ [] ↦ UserCommand.set_usage | c ∷ cs ↦ UserCommand.set_key key (c ∷ cs) ])
        (extract-end v)
    ∙ set_key-word v key

parse_line-get : {key : List ℕ} → Word key → parse_line (get_line key) ≡ UserCommand.get_key key
unfolding parse_line get_command same_text extract
parse_line-get k =
    ap (λ q. elim (q.0) [ [] ↦ UserCommand.get_usage | c ∷ cs ↦ UserCommand.get_key (c ∷ cs) ])
      (extract-end k)
    ∙ get_key-word k

-- What a replica does for a command of the user, once its message has been committed: the new
-- state machine and the reply.
abbrev pub executed : UserCommand → StateMachine → StateMachine × List ℕ
executed command machine = elim (message_of command) [
  | none ↦ (machine, [])
  | some msg ↦ run_operation msg.header.operation msg.payload machine
]

pub executed-set :
    {key value : List ℕ}
    → Word key
    → Word value
    → (machine : StateMachine)
    → (executed (UserCommand.set_key key value) machine).0 ≡ insert key value machine
unfolding run_operation message_of extract
executed-set {key = key} {value = value} k v machine =
    ap (λ q. insert q.0 ((extract q.1).0) machine) (extract-word k value)
    ∙ ap (λ q. insert key q.0 machine) (extract-end v)

abbrev value_or_not_found : Option (List ℕ) → List ℕ
value_or_not_found none = not_found
value_or_not_found (some value) = value

executed-get :
    {key : List ℕ}
    → Word key
    → (machine : StateMachine)
    → (executed (UserCommand.get_key key) machine).1 ≡ value_or_not_found (find key machine)
unfolding run_operation message_of extract
executed-get k machine = ap (λ q. value_or_not_found (find q.0 machine)) (extract-end k)

abbrev pub machine_after : List ℕ → StateMachine → StateMachine
machine_after line machine = (executed (parse_line line) machine).0

abbrev pub reply_to : List ℕ → StateMachine → List ℕ
reply_to line machine = (executed (parse_line line) machine).1

reply_to-get_line :
    {key : List ℕ}
    → Word key
    → (machine : StateMachine)
    → reply_to (get_line key) machine ≡ value_or_not_found (find key machine)
reply_to-get_line k machine =
    ap (λ c. (executed c machine).1) (parse_line-get k) ∙ executed-get k machine

-- For words without white space: once the line `set key value` has been run by a replica, the
-- line `get other` is answered with the value if the key is the same, and with what it was
-- answered with before if not.
pub set_line-get_line :
    {key value other : List ℕ}
    → Word key
    → Word value
    → Word other
    → (machine : StateMachine)
    → reply_to (get_line other) (machine_after (set_line key value) machine)
      ≡ (if equiv other key then value else reply_to (get_line other) machine)
set_line-get_line {key = key} {value = value} {other = other} k v o machine =
    ap (λ c. reply_to (get_line other) ((executed c machine).0)) (parse_line-set k v)
    ∙ ap (reply_to (get_line other)) (executed-set k v machine)
    ∙ reply_to-get_line o (insert key value machine)
    ∙ ap value_or_not_found (find-insert key other value machine)
    ∙ elim (Bool-cases (equiv other key)) [
      | inl e ↦ rw e refl
      | inr e ↦ rw (e, reply_to-get_line o machine) refl
    ]
