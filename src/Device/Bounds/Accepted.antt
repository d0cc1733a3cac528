-- ===== src/Device/Bounds/Accepted.antt =====
-- Requests that were accepted stand inside the mailbox.
use aliro_actuator.Common.{
  ◌≡◌, ◌≤◌, ◌+◌, refl, ◌∙◌, List, [], ◌∷◌, ◌++◌, map, append_assoc, append-nil, All, All-append,
  some, Bool, true, false, not, ◌&&◌, ◌||◌, if◌then◌else◌, ◌⊎◌, inl, inr, length, length-drop,
  Bytes, ok, leb→le, arith,
}
use aliro_actuator.Mailbox.{Mailbox, check_boundaries}
use aliro_actuator.Mailbox.Session.{
  MailboxSession, Command, set_command, write_command, Fits, add_set, add_write, offset_of,
}
use aliro_actuator.Apdu.Parse.Exchange.{MailboxFields}
use aliro_actuator.Device.Session.{UserSession, envelope_done, state_valid}
use aliro_actuator.Device.Exchange.Requests.{
  accepted, refused, out_of_boundaries, check_requests, fits_block, fits_write, all_fit,
  any_request, add_sets, add_writes,
}
use aliro_actuator.Device.Bounds.{IsWriteRequest, IsSetRequest, AreRequests}

-- the commands that a command adds to a session, in their order
abbrev pub commands_of : List Bytes → List Bytes → List Command
commands_of sets writes = map set_command sets ++ map write_command writes

pub add_sets_lem :
    (bs : List Bytes) (s : MailboxSession)
    → add_sets bs s ≡ ok (record s { commands = s.commands ++ map set_command bs })
unfolding add_sets add_set
add_sets_lem [] s = rw (append-nil s.commands) refl
add_sets_lem (b ∷ bs) s =
    add_sets_lem bs (record s { commands = s.commands ++ set_command b ∷ [] })
    ∙ rw (append_assoc s.commands (set_command b ∷ []) (map set_command bs)) refl

pub add_writes_lem :
    (bs : List Bytes) (s : MailboxSession)
    → add_writes bs s ≡ ok (record s { commands = s.commands ++ map write_command bs })
unfolding add_writes add_write
add_writes_lem [] s = rw (append-nil s.commands) refl
add_writes_lem (b ∷ bs) s =
    add_writes_lem bs (record s { commands = s.commands ++ write_command b ∷ [] })
    ∙ rw (append_assoc s.commands (write_command b ∷ []) (map write_command bs)) refl

all_fit-cons :
    (f : Bytes → Bool) (b : Bytes) (bs : List Bytes)
    → all_fit f (b ∷ bs) ≡ true
    → (f b ≡ true) × (all_fit f bs ≡ true)
all_fit-cons f b bs h = ground arith

sets-Fits :
    (m : Mailbox) (bs : List Bytes)
    → All IsSetRequest bs
    → all_fit (fits_block m) bs ≡ true
    → All (Fits (length m.content)) (map set_command bs)
unfolding fits_block check_boundaries
sets-Fits m [] h fit = tt
sets-Fits m (b ∷ bs) ((value, at, small), hs) fit =
    let (first, rest) = all_fit-cons (fits_block m) b bs fit in
    ((value, at, small, leb→le _ _ first), sets-Fits m bs hs rest)

writes-Fits :
    (m : Mailbox) (bs : List Bytes)
    → All IsWriteRequest bs
    → all_fit (fits_write m) bs ≡ true
    → All (Fits (length m.content)) (map write_command bs)
unfolding fits_write
writes-Fits m [] h fit = tt
writes-Fits m (b ∷ bs) (h, hs) fit =
    let (first, rest) = all_fit-cons (fits_write m) b bs fit in
    let inside : offset_of b + length b ≤ length m.content + 2 = leb→le _ _ first in
    (omega (arith, length-drop 2 b), writes-Fits m bs hs rest)

no_request : (f : Bytes → Bool) (bs : List Bytes) → any_request bs ≡ false → all_fit f bs ≡ true
no_request f [] h = refl
no_request f (b ∷ bs) h = cc

-- the chain of tests of a command, on its Booleans
chain_lem :
    (reads writes sets step_up readable writable fit_reads fit_writes fit_sets : Bool)
    → (writes ≡ false → fit_writes ≡ true)
    → (sets ≡ false → fit_sets ≡ true)
    → (if reads || (writes || sets)
        then (if step_up
            then refused
            else if reads && not readable
            then refused
            else if (writes || sets) && not writable
            then refused
            else if fit_reads && (fit_writes && fit_sets)
            then accepted
            else out_of_boundaries)
        else accepted)
      ≡ accepted
    → (fit_writes ≡ true) × (fit_sets ≡ true) × ((writes || sets ≡ false) ⊎ (writable ≡ true))
chain_lem reads writes sets step_up readable writable fit_reads fit_writes fit_sets u v h =
    ground arith

-- What an accepted command has passed.
pub accepted_lem :
    (f : MailboxFields) (s : UserSession) (m : Mailbox)
    → check_requests f s (some m) ≡ accepted
    → (all_fit (fits_write m) f.write_requests ≡ true)
      × (all_fit (fits_block m) f.set_requests ≡ true)
      × ((any_request f.write_requests || any_request f.set_requests ≡ false)
          ⊎ (m.write_permission ≡ true))
unfolding check_requests
accepted_lem f s m h =
    chain_lem (any_request f.read_requests) (any_request f.write_requests)
      (any_request f.set_requests) (state_valid (envelope_done ∷ []) s && not m.step_up_permission)
      m.read_permission m.write_permission (all_fit (fits_block m) f.read_requests)
      (all_fit (fits_write m) f.write_requests) (all_fit (fits_block m) f.set_requests)
      (no_request (fits_write m) f.write_requests) (no_request (fits_block m) f.set_requests) h

no_commands :
    (sets writes : List Bytes)
    → any_request writes || any_request sets ≡ false
    → commands_of sets writes ≡ []
no_commands [] [] h = refl
no_commands (b ∷ bs) [] h = cc
no_commands [] (b ∷ bs) h = cc
no_commands (b ∷ bs) (c ∷ cs) h = cc

-- The commands of an accepted command stand inside, and the mailbox may be written if there are any.
pub commands_of-Fits :
    (f : MailboxFields) (s : UserSession) (m : Mailbox)
    → AreRequests f
    → check_requests f s (some m) ≡ accepted
    → All (Fits (length m.content)) (commands_of f.set_requests f.write_requests)
      × ((commands_of f.set_requests f.write_requests ≡ []) ⊎ (m.write_permission ≡ true))
commands_of-Fits f s m (writes, sets) h =
    let (fit_writes, fit_sets, allowed) = accepted_lem f s m h in
    (
      All-append _ _ _ (sets-Fits m f.set_requests sets fit_sets)
          (writes-Fits m f.write_requests writes fit_writes),
      elim allowed [
        | inl none_asked ↦ inl (no_commands f.set_requests f.write_requests none_asked)
        | inr writable ↦ inr writable
      ],
    )
