-- ===== src/Examples.antt =====
-- The theorems at concrete inputs, over tables that are lists.
mod Engines
mod Policies
mod Identities
mod Teams
mod Tokens
mod Invitations
mod Admins
mod Plugins
mod Pushes
mod Events
