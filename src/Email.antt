-- ===== src/Email.antt =====
-- bridge/src/bridge/providers/email/threading.py: the response of IMAP's THREAD command, and thread ids.
-- Parse has the loop over the response's characters; Tree has the responses, and Threads proves that
-- the loop reads them. Base64 is what the thread ids of ThreadId use of Python's library.
pub mod Parse
pub mod Tree
pub mod Threads
pub mod Base64
pub mod ThreadId
pub mod Imap
pub mod Smtp
