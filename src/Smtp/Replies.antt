-- ===== src/Smtp/Replies.antt =====
-- The replies that are functions of their own in src/smtp/server.rs.
use whalemail.Prelude.Action.{Action}
use whalemail.Net.{IoError}
use whalemail.Smtp.Crates.{Env, send}
use whalemail.Smtp.State.{msg_bad_command, msg_mailbox_unavailable}

-- `BadCommandError::respond`, which is `BadCommandError::write_msg`
abbrev pub respond_bad_command : Action IoError Env (Unit {0})
respond_bad_command = send msg_bad_command

-- `DataState::delivery_error_response`
abbrev pub delivery_error_response : Action IoError Env (Unit {0})
delivery_error_response = send msg_mailbox_unavailable
