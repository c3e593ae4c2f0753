-- ===== src/Room/Modes/Reader.antt =====
-- What `handleMode` of channel/Channel.cpp has announced so far, as a client reads it.
use ft_irc.Heap.{client, channel, on_client, on_channel, send_to_one, Heap}
use ft_irc.Handlers.Modes.{apply_flag, add_arg, next_param, tell, ModeLoop}
use ft_irc.Channel.{Channel}
use ft_irc.Room.{Settings}
use ft_irc.Heap.Live.{live-on_channel}
use ft_irc.Heap.Silent.{channel-silent, client-silent, IsLiveChannel-silent}
use ft_irc.Heap.Quiet.{core, quiet-send_to_one, IsLiveChannel, channel-on_channel}
use ft_irc.Room.Modes.{settings_of, begin, read_letter, read_modes, spaced, Reading}
use ft_irc.Room.Modes.Signs.{spaced-append, reading_of, reads-append_applied}
use ft_irc.Base.{
  ◌==◌, not, Text, codes, ℕ, ◌≡◌, sym, ap, ◌∙◌, Bool, true, false, List, [], ◌∷◌, ◌++◌, append-nil,
  append_assoc, arith,
}
use ft_irc.Links.Settings.{KeepsLists}

-- What a client has read once the loop has come here.
abbrev pub reading : ModeLoop → List Text → Settings → Reading
reading l rest s = record { adding = not (l.last_sign == b'-'); rest = rest; settings = s }

one_more : (arg text : Text) → text ++ codes " " ++ arg ≡ text ++ spaced (arg ∷ [])
unfolding codes
one_more arg text =
    append_assoc text (codes " ") arg
    ∙ ap (λ z. text ++ z) (ap (λ z. codes " " ++ z) (sym (append-nil arg)))

module _ (ch u : ℕ) (h : Heap) where
  -- The loop so far: what is announced reads as what is set, and no one but the client that asks
  -- has been sent anything.
  pub record Faithful (l : ModeLoop) (args : List Text) : Type 0 where
    pub args_text : l.applied_args ≡ spaced args
    pub reads :
        (more : List Text)
        → read_modes l.applied (begin (args ++ more) (settings_of (channel h ch)))
          ≡ reading l more (settings_of (channel l.heap ch))
    pub live : IsLiveChannel l.heap ch
    pub same_members : (channel l.heap ch).members ≡ (channel h ch).members
    pub same_name : (channel l.heap ch).name ≡ (channel h ch).name
    pub others : (p : ℕ) → u == p ≡ false → l.heap.client_at p ≡ h.client_at p
    pub same_user : core (client l.heap u) ≡ core (client h u)

  Faithful-tell :
      (message : Text) (l : ModeLoop) (args : List Text)
      → Faithful l args
      → Faithful (tell u message l) args
  Faithful-tell message l args f =
      let q = quiet-send_to_one u message l.heap in
      record {
        args_text = f.args_text;
        reads = λ more. rw (channel-silent l.heap _ q ch) (f.reads more);
        live = IsLiveChannel-silent l.heap _ q ch f.live;
        same_members =
            ap (λ (c : Channel). c.members) (channel-silent l.heap _ q ch) ∙ f.same_members;
        same_name = ap (λ (c : Channel). c.name) (channel-silent l.heap _ q ch) ∙ f.same_name;
        others = λ p n. told_other p n ∙ f.others p n;
        same_user = client-silent l.heap _ q u ∙ f.same_user;
      }
    where
      told_other :
          (p : ℕ) → u == p ≡ false → (send_to_one u message l.heap).client_at p ≡ l.heap.client_at p
      told_other p n = unfold send_to_one on_client in ground (arith, n)

  -- One letter more, with the parameters that it takes.
  Faithful-apply :
      (enable : Bool) (flag : ℕ) (f : Channel → Channel) (taken : List Text) (text : Text)
      (l : ModeLoop) (args : List Text)
      → text ≡ l.applied_args ++ spaced taken
      → KeepsLists f (channel l.heap ch)
      → ((rest : List Text)
          → read_letter flag (record {
            adding = enable;
            rest = taken ++ rest;
            settings = settings_of (channel l.heap ch);
          })
            ≡ record {
              adding = enable;
              rest = rest;
              settings = settings_of (f (channel l.heap ch));
            })
      → Faithful l args
      → Faithful (record (apply_flag ch enable flag f l) { applied_args = text }) (args ++ taken)
  Faithful-apply enable flag f taken text l args t k reads_step s =
      let here = channel-on_channel ch f l.heap ch s.live in
      let there : channel (on_channel ch f l.heap) ch ≡ f (channel l.heap ch) =
        rw here (ground arith) in
      record {
        args_text = t ∙ rw (s.args_text) (sym (spaced-append args taken));
        reads = λ more.
            rw (there, append_assoc args taken more)
              (reads-append_applied l.applied l.last_sign enable flag _ (taken ++ more) more _ _
                (s.reads (taken ++ more)) (reads_step more));
        live = live-on_channel ch f l.heap ch s.live;
        same_members = rw there (k.same_members ∙ s.same_members);
        same_name = rw there (k.same_name ∙ s.same_name);
        others = λ p n. unfold on_channel in s.others p n;
        same_user = unfold on_channel client in s.same_user;
      }

  abbrev pub IsFaithful : ModeLoop → Type 0
  IsFaithful l = (args : List Text) × Faithful l args

  -- A letter that takes no parameter.
  pub IsFaithful-apply_flag :
      (enable : Bool) (flag : ℕ) (f : Channel → Channel) (l : ModeLoop)
      → KeepsLists f (channel l.heap ch)
      → ((rest : List Text)
          → read_letter flag (reading_of enable rest (settings_of (channel l.heap ch)))
            ≡ reading_of enable rest (settings_of (f (channel l.heap ch))))
      → IsFaithful l
      → IsFaithful (apply_flag ch enable flag f l)
  IsFaithful-apply_flag enable flag f l k one (args, s) = (
    args ++ [],
    Faithful-apply enable flag f [] l.applied_args l args (sym (append-nil l.applied_args)) k one s,
  )

  -- A letter that takes one.
  pub IsFaithful-add_arg :
      (flag : ℕ) (f : Channel → Channel) (arg : Text) (l : ModeLoop)
      → KeepsLists f (channel l.heap ch)
      → ((rest : List Text)
          → read_letter flag (reading_of true (arg ∷ rest) (settings_of (channel l.heap ch)))
            ≡ reading_of true rest (settings_of (f (channel l.heap ch))))
      → IsFaithful l
      → IsFaithful (add_arg arg (apply_flag ch true flag f l))
  IsFaithful-add_arg flag f arg l k one (args, s) = (
    args ++ arg ∷ [],
    Faithful-apply true flag f (arg ∷ []) (l.applied_args ++ codes " " ++ arg) l args
        (one_more arg l.applied_args) k one s,
  )

  pub IsFaithful-tell :
      (message : Text) (l : ModeLoop) → IsFaithful l → IsFaithful (tell u message l)
  IsFaithful-tell message l (args, s) = (args, Faithful-tell message l args s)

  pub IsFaithful-next_param : (l : ModeLoop) → IsFaithful l → IsFaithful (next_param l)
  IsFaithful-next_param l (args, s) = (
    args,
    record {
      args_text = s.args_text;
      reads = s.reads;
      live = s.live;
      same_members = s.same_members;
      same_name = s.same_name;
      others = s.others;
      same_user = s.same_user;
    },
  )

  pub IsFaithful-enable :
      (enable : Bool) (l : ModeLoop) → IsFaithful l → IsFaithful (record l { enable = enable })
  IsFaithful-enable enable l (args, s) = (
    args,
    record {
      args_text = s.args_text;
      reads = s.reads;
      live = s.live;
      same_members = s.same_members;
      same_name = s.same_name;
      others = s.others;
      same_user = s.same_user;
    },
  )
