-- ===== src/Subscription/Tests.antt =====
-- Registrations and updates on concrete topics, at which the theorems hold.
use gonitor.Prelude.{
  ℕ, true, none, some, List, [], ◌∷◌, ◌++◌, String, ◌≡◌, refl, get, put, put_int, remove, arith,
}
use text.Mathlib.TextEquality.{eq_iff}
use gonitor.Socket.{blank, send}
use gonitor.Subscription.{
  Registry, Client, WbSocket, Message, handlers_of, unregister, mount, unmount, open_messages,
  subscribe_message, unsubscribe_message, wb_options,
}
use gonitor.Subscription.Random.{
  get_random_string, random_string, draw_first, after_first, draw_rest, append_char, text_length,
  starts_with_letter, get_random_string-returns,
}
use gonitor.Subscription.Registry.{receiver}
use gonitor.Subscription.Messages.{unmount-mount, unmount_mutes}
use gonitor.Subscription.Resend.{open_messages-unmount}

-- Two receiving functions for the logs of task 7, and one for task 8; a function is its number.
abbrev subscribed : Registry ℕ
subscribed = ("TASK_LOG", (7, ("k1", 1) ∷ ("k2", 2) ∷ []) ∷ (8, ("k3", 3) ∷ []) ∷ []) ∷ []

abbrev client : Client ℕ ℕ
client = record { subscribed = subscribed; calls = [] }

abbrev socket : WbSocket ℕ ℕ
socket = blank (wb_options "ws://localhost" 0) client

abbrev without_k1 : Registry ℕ
without_k1 = ("TASK_LOG", (7, ("k2", 2) ∷ []) ∷ (8, ("k3", 3) ∷ []) ∷ []) ∷ []

unregister_k1 : unregister "TASK_LOG" 7 "k1" subscribed ≡ some without_k1
unfolding unregister get put put_int remove
unregister_k1 = refl

k1_registered : receiver "TASK_LOG" 7 "k1" client.subscribed ≡ some 1
unfolding receiver handlers_of get
k1_registered = refl

k4_free : receiver "TASK_LOG" 7 "k4" socket.app.subscribed ≡ none
unfolding receiver handlers_of get
k4_free = refl

unmount-mount_example :
    (s' : WbSocket ℕ ℕ) × (unmount "TASK_LOG" 7 "k4" (mount "TASK_LOG" 7 "k4" 4 socket) ≡ some s')
    × ((type' key' : String) (id' : ℕ)
        → receiver type' id' key' s'.app.subscribed ≡ receiver type' id' key' socket.app.subscribed)
    × (s'.message_queue
        ≡ [] ++ subscribe_message "TASK_LOG" 7 ∷ unsubscribe_message "TASK_LOG" 7 ∷ [])
unmount-mount_example = unmount-mount "TASK_LOG" "k4" 7 4 socket k4_free

-- The socket after the subscriber `k1` has unmounted
abbrev socket_without_k1 : WbSocket ℕ ℕ
socket_without_k1 = record (send (unsubscribe_message "TASK_LOG" 7) socket) {
  app = record { subscribed = without_k1; calls = [] };
}

unmount_k1 : unmount "TASK_LOG" 7 "k1" socket ≡ some socket_without_k1
unfolding unmount unregister get put put_int remove send
unmount_k1 = refl

open_messages-unmount_example :
    (before after : List Message) × (open_messages without_k1
      ≡ before ++ subscribe_message "TASK_LOG" 7 ∷ after)
open_messages-unmount_example =
    open_messages-unmount "TASK_LOG" "k1" 7 socket socket_without_k1 unmount_k1

k2_registered : receiver "TASK_LOG" 7 "k2" socket.app.subscribed ≡ some 2
unfolding receiver handlers_of get
k2_registered = refl

unmount_mutes_example :
    (receiver "TASK_LOG" 7 "k2" without_k1 ≡ some 2)
    × (socket_without_k1.message_queue ≡ [] ++ unsubscribe_message "TASK_LOG" 7 ∷ [])
unmount_mutes_example =
    unmount_mutes "TASK_LOG" "k1" "k2" 7 2 socket socket_without_k1
      (λ e. ground (arith, eq_iff "k1" "k2")) k2_registered unmount_k1

get_random_string-returns_example :
    (s : String) × (left : List ℕ) × (get_random_string 3 (55 ∷ 4 ∷ 60 ∷ 26 ∷ []) ≡ some (s, left))
    × (text_length s ≡ 3)
    × (starts_with_letter s ≡ true)
get_random_string-returns_example =
    get_random_string-returns 3 (55 ∷ []) 4 (60 ∷ 26 ∷ []) (omega arith, tt) (omega arith)
      (omega arith) (omega arith, (omega arith, tt))

random_key : get_random_string 3 (55 ∷ 4 ∷ 60 ∷ 26 ∷ []) ≡ some ("d9A", [])
unfolding get_random_string random_string draw_first after_first draw_rest append_char
random_key = refl
