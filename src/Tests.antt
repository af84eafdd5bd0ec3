-- ===== src/Tests.antt =====
-- Runs of the models on the data of `Samples`, and each theorem with hypotheses at such an input.
mod Runs
mod Tries
mod Redrives
mod Parts
mod Edges
mod Hubs
mod Inputs
mod Graphs
mod Sweeps
mod Mailboxes
mod Queues
mod Mails
mod Attachments
