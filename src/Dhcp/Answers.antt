-- ===== src/Dhcp/Answers.antt =====
-- When the handler answers, and what the answer says.
use mathlib.Core.Path.{subst}
use o2_ims_worker.Prelude.{ap, ◌∙◌, ◌≡◌, ◌≢◌, ◌⊎◌, ◌↔◌, refl, Option, none, some, [], ◌∷◌, arith}
use o2_ims_worker.Prelude.Dict.{Dict, lookup}
use o2_ims_worker.Prelude.Exec.{returns}
use o2_ims_worker.World.{World, Client}
use o2_ims_worker.Dhcp.{
  Library, IsLawful, MessageType, discover, request, Field, flags, your_ip, server_ip_field,
  boot_file_name, option, opt_boot_file_name, opt_message_type, opt_lease_time, Value, broadcast,
  address, text, seconds, kind, server_ip, Edits, is_legacy_pxe_client, base_edits, edit_all,
  reply_type, handler,
}

Field-discrete : Discrete Field
Field-discrete = hlevel

-- A field after one edit, and after the edits of a list: the last one of the field counts.
abbrev after_edit : {f g : Field} → Dec (g ≡ f) → Value → Option Value → Option Value
after_edit (yes _) v before = some v
after_edit (no _) v before = before

abbrev last_edit : Field → Edits → Option Value → Option Value
last_edit f [] before = before
last_edit f ((g, v) ∷ edits) before = last_edit f edits (after_edit (Field-discrete g f) v before)

module _ (lib : Library) (laws : IsLawful lib) where
  open lib use {Message, Reply}

  read-assign :
      (f g : Field) (v : Value) (r : Reply) (d : Dec (g ≡ f))
      → lib.read f (lib.assign g v r) ≡ after_edit d v (lib.read f r)
  read-assign f g v r (yes e) =
      subst (λ k. lib.read k (lib.assign g v r) ≡ some v) e (laws.read-assign_self g v r)
  read-assign f g v r (no n) = laws.read-assign_ne g f v r n

  read-edit_all :
      (f : Field) (edits : Edits) (r : Reply)
      → lib.read f (edit_all lib edits r) ≡ last_edit f edits (lib.read f r)
  unfolding edit_all
  read-edit_all f [] r = refl
  read-edit_all f ((g, v) ∷ edits) r =
      read-edit_all f edits (lib.assign g v r)
      ∙ ap (last_edit f edits) (read-assign f g v r (Field-discrete g f))

  -- The handler returns exactly one of two things for a process whose table is loaded: the reply,
  -- for a known client's discover or request message that the library can answer, and else none.
  pub handler-answers_iff :
      (m : Message) (w : World) (clients : Dict Client)
      → w.clients ≡ some clients
      → (handler lib m w ≢ returns none) ↔ (
          (lookup (lib.hardware_address m) clients ≢ none)
          × (lib.new_reply_from_request m ≢ none)
          × ((lib.message_type m ≡ discover) ⊎ (lib.message_type m ≡ request)))
  unfolding handler
  handler-answers_iff m w clients e = ground arith

  -- The reply to a discover or request message of a known client: it offers the client's address and
  -- boot file, names the server, is broadcast exactly if the client counts as a legacy one, lasts
  -- twelve hours, and is an offer for a discover message and an acknowledgement for a request.
  pub handler-reply :
      (m : Message) (w : World) (clients : Dict Client) (c : Client) (base : Reply)
      (t : MessageType)
      → w.clients ≡ some clients
      → lookup (lib.hardware_address m) clients ≡ some c
      → lib.new_reply_from_request m ≡ some base
      → reply_type (lib.message_type m) ≡ some t
      → (reply : Reply) × (handler lib m w ≡ returns (some reply))
        × (lib.read flags reply ≡ some (broadcast (is_legacy_pxe_client lib m)))
        × (lib.read your_ip reply ≡ some (address c.offer_ip))
        × (lib.read server_ip_field reply ≡ some (address server_ip))
        × (lib.read boot_file_name reply ≡ some (text c.boot_file_url))
        × (lib.read (option opt_boot_file_name) reply ≡ some (text c.boot_file_url))
        × (lib.read (option opt_lease_time) reply ≡ some (seconds 43200))
        × (lib.read (option opt_message_type) reply ≡ some (kind t))
  unfolding Field-discrete
  handler-reply m w clients c base t e found made type = (
    finished,
    unfold handler in ground arith,
    reads flags,
    reads your_ip,
    reads server_ip_field,
    reads boot_file_name,
    reads (option opt_boot_file_name),
    reads (option opt_lease_time),
    reads (option opt_message_type),
  )
    where
      edited : Reply
      edited = edit_all lib (base_edits lib m c) base

      finished : Reply
      finished = lib.assign (option opt_message_type) (kind t) edited

      reads :
          (f : Field)
          → lib.read f finished
            ≡ after_edit
                (Field-discrete (option opt_message_type) f)
                (kind t)
                (last_edit f (base_edits lib m c) (lib.read f base))
      reads f =
          read-assign f (option opt_message_type) (kind t) edited
            (Field-discrete (option opt_message_type) f)
          ∙ ap (after_edit (Field-discrete (option opt_message_type) f) (kind t))
              (read-edit_all f (base_edits lib m c) base)
